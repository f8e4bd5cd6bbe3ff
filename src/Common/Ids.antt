-- ===== src/Common/Ids.antt =====
-- crates/common/src/ids.rs. A text is the list of its code points; a cache key is ASCII, so its
-- code points are its bytes.
use mooncache.Prelude.{
  ℕ, ◌≡◌, ◌↔◌, ap, Bool, true, ◌&&◌, ◌||◌, [], ◌∷◌, ◌++◌, leb, eqb, if◌then◌else◌, length, take,
  drop, Text, Eq, text_beq, text_beq_iff, pair_eq,
}
use mooncache.Common.Error.{empty_tenant_id, invalid_cache_key, CacheResult, ok, err}

-- `char::is_whitespace`: the code points with the Unicode property White_Space.
unfoldable pub is_whitespace : ℕ → Bool
is_whitespace c =
    (leb 9 c && leb c 13)
    || eqb c 32
    || eqb c 0x85
    || eqb c 0xa0
    || eqb c 0x1680
    || (leb 0x2000 c && leb c 0x200a)
    || eqb c 0x2028
    || eqb c 0x2029
    || eqb c 0x202f
    || eqb c 0x205f
    || eqb c 0x3000

-- `value.trim().is_empty()`: trimming leaves nothing exactly when every character is white space.
unfoldable pub is_blank : Text → Bool
is_blank [] = true
is_blank (c ∷ s) = is_whitespace c && is_blank s

pub record TenantId : Type 0 where
  pub value : Text

unfoldable pub tenant_id_parse : Text → CacheResult TenantId
tenant_id_parse value =
    if is_blank value then err empty_tenant_id else ok (record { value = value })

-- `b'0'..=b'9' | b'a'..=b'f'`
unfoldable pub is_lower_hex : ℕ → Bool
is_lower_hex b = (leb b'0' b && leb b b'9') || (leb b'a' b && leb b b'f')

unfoldable pub all_lower_hex : Text → Bool
all_lower_hex [] = true
all_lower_hex (b ∷ s) = is_lower_hex b && all_lower_hex s

pub record CacheKey : Type 0 where
  pub value : Text

unfoldable pub cache_key_from_hex : Text → CacheResult CacheKey
cache_key_from_hex value =
    if eqb (length value) 64 && all_lower_hex value
    then ok (record { value = value })
    else err invalid_cache_key

-- `format!("{}…{}", &self.0[..8], &self.0[60..])`; the ellipsis is U+2026.
unfoldable pub redacted : CacheKey → Text
redacted key = take 8 key.value ++ (0x2026 ∷ drop 60 key.value)

unfoldable pub tenant_id_beq : TenantId → TenantId → Bool
tenant_id_beq a b = text_beq a.value b.value

pub tenant_id_beq_iff : (a b : TenantId) → (tenant_id_beq a b ≡ true) ↔ (a ≡ b)
unfolding tenant_id_beq
tenant_id_beq_iff a b = (
  (λ h.
      ap (λ v. let r : TenantId = record { value = v } in r) ((text_beq_iff a.value b.value).0 h)),
  λ h. (text_beq_iff a.value b.value).1 (ap (λ (t : TenantId). t.value) h),
)

unfoldable pub cache_key_beq : CacheKey → CacheKey → Bool
cache_key_beq a b = text_beq a.value b.value

pub cache_key_beq_iff : (a b : CacheKey) → (cache_key_beq a b ≡ true) ↔ (a ≡ b)
unfolding cache_key_beq
cache_key_beq_iff a b = (
  (λ h.
      ap (λ v. let r : CacheKey = record { value = v } in r) ((text_beq_iff a.value b.value).0 h)),
  λ h. (text_beq_iff a.value b.value).1 (ap (λ (t : CacheKey). t.value) h),
)

-- The derived `PartialEq`.
instance abbrev pub tenant_id_eq : Eq TenantId
tenant_id_eq = record { equals = tenant_id_beq; decides = tenant_id_beq_iff }

instance abbrev pub cache_key_eq : Eq CacheKey
cache_key_eq = record { equals = cache_key_beq; decides = cache_key_beq_iff }

-- `(TenantId, CacheKey)`
abbrev pub ObjectKey : Type 0
ObjectKey = TenantId × CacheKey

instance abbrev pub object_key_eq : Eq ObjectKey
object_key_eq = pair_eq

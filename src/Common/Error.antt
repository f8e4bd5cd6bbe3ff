-- ===== src/Common/Error.antt =====
-- crates/common/src/error.rs
use mooncache.Prelude.{◌≡◌, refl, ◌⊎◌, inl, inr, ◌++◌, Text, text}

pub data CacheError : Type 0 where
  empty_tenant_id invalid_cache_key not_found : CacheError
  invalid_id conflict quota_exceeded upstream_unavailable : Text → CacheError

-- `to_string()`, as the attributes of the variants have it.
unfoldable pub cache_error_text : CacheError → Text
cache_error_text empty_tenant_id = text "tenant id must not be empty"
cache_error_text invalid_cache_key = text "cache key must be 64 lowercase hex characters"
cache_error_text (invalid_id message) = text "invalid id: " ++ message
cache_error_text not_found = text "not found"
cache_error_text (conflict message) = text "conflict: " ++ message
cache_error_text (quota_exceeded message) = text "quota exceeded: " ++ message
cache_error_text (upstream_unavailable message) = text "upstream unavailable: " ++ message

-- `Result<T, CacheError>`
pub data CacheResult {ℓ} (A : Type ℓ) : Type ℓ where
  ok : A → CacheResult A
  err : CacheError → CacheResult A

infixl 5 ◌>>=◌
abbrev pub ◌>>=◌ {ℓ κ} :
    {A : Type ℓ} {B : Type κ} → CacheResult A → (A → CacheResult B) → CacheResult B
ok a >>= f = f a
err e >>= f = err e

pub CacheResult-cases {ℓ} :
    {A : Type ℓ} (r : CacheResult A) → ((a : A) × (r ≡ ok a)) ⊎ ((e : CacheError) × (r ≡ err e))
CacheResult-cases (ok a) = inl (a, refl)
CacheResult-cases (err e) = inr (e, refl)

-- ===== src/Gateway/Config/Tenants.antt =====
-- What a tenant configuration that crates/gateway/src/config.rs accepts is sure to satisfy, and whom
-- a bearer token authenticates.
use mooncache.Prelude.{
  text_ltb, btree_insert, ◌≤◌, ◌<◌, ◌≡◌, refl, sym, subst, ap, ◌∙◌, inl, inr, Bool, true, false,
  ◌&&◌, List, [], ◌∷◌, none, some, arith, if◌then◌else◌, length, Text, text_eq, ◌==◌, ==_iff,
  lookup, contains_key, contains_key-none, Entries, All, Bool-cases,
}
use mooncache.Common.{TenantId, tenant_id_parse, is_blank, all_lower_hex}
use mooncache.Gateway.Config.{
  ConfigResult, reject_if, ok, invalid, ◌>>=◌, ◌>>◌, check_all, tenant_checks, tenant_config,
  validate_sha256, RawTenantConfig, TenantConfig, TenantConfigSet, parse_tenant_id, no_vendors,
  any_blank, check_tenant, collect_tenants, tenants_from, find_enabled, tenant_for_bearer_token,
}

pub record IsValidTenant (key : Text) (config : TenantConfig) : Type 0 where
  pub keyed : config.id.value ≡ key
  pub identified : is_blank config.id.value ≡ false
  pub digest_len : length config.api_key_sha256 ≡ 64
  pub digest_hex : all_lower_hex config.api_key_sha256 ≡ true
  pub named : is_blank config.name ≡ false
  pub rate_limited : 0 < config.request_rate_limit_per_minute
  pub stream_limited : 0 < config.stream_concurrency_limit
  pub ttl_positive : 0 < config.default_ttl_seconds
  pub ttl_bounded : config.default_ttl_seconds ≤ config.max_ttl_seconds
  pub some_vendor : no_vendors config.allowed_vendors ≡ false
  pub no_blank_vendor : any_blank config.allowed_vendors ≡ false

-- A bind that succeeds.
>>=-inv {ℓ κ} :
    {A : Type ℓ} {B : Type κ} (m : ConfigResult A) (f : A → ConfigResult B) (b : B)
    → (m >>= f) ≡ ok b
    → (a : A) × (m ≡ ok a) × (f a ≡ ok b)
>>=-inv (ok a) f b h = (a, refl, h)
>>=-inv (invalid message) f b h = cc

ok_injective {ℓ} : {A : Type ℓ} (a b : A) → ◌≡◌ {A = ConfigResult A} (ok a) (ok b) → a ≡ b
ok_injective a b h = cc

-- Checks that pass.
check_all-inv :
    (checks : List (Bool × Text)) → check_all checks ≡ ok tt → All (λ c. c.0 ≡ false) checks
unfolding check_all
check_all-inv [] h = tt
check_all-inv ((true, message) ∷ checks) h = cc
check_all-inv ((false, message) ∷ checks) h = (refl, check_all-inv checks h)

unit_ok :
    {B : Type 0} (m : ConfigResult (Unit {0})) (k : ConfigResult B) (b : B)
    → (m >> k) ≡ ok b
    → (m ≡ ok tt) × (k ≡ ok b)
unit_ok (ok tt) k b h = (refl, h)
unit_ok (invalid message) k b h = cc

rejected : (test : Bool) (message : Text) → reject_if test message ≡ ok tt → test ≡ false
rejected true message h = cc
rejected false message h = refl

parse_tenant_id-inv :
    (id : Text) (tenant_id : TenantId)
    → parse_tenant_id id ≡ ok tenant_id
    → (tenant_id.value ≡ id) × (is_blank id ≡ false)
unfolding parse_tenant_id tenant_id_parse
parse_tenant_id-inv id tenant_id h = elim (Bool-cases (is_blank id)) [
  | inl blank ↦ ground (arith, blank)
  | inr not_blank ↦
      let same : ◌≡◌ {A = TenantId} (record { value = id }) tenant_id = ground (arith, not_blank) in
      (sym (ap (λ (t : TenantId). t.value) same), not_blank)
]

validate_sha256-inv :
    (digest : Text)
    → validate_sha256 digest ≡ ok tt
    → (length digest ≡ 64) × (all_lower_hex digest ≡ true)
unfolding validate_sha256
validate_sha256-inv digest h = (ground arith, ground arith)

check_tenant-IsValid :
    (raw : RawTenantConfig) (config : TenantConfig)
    → check_tenant raw ≡ ok config
    → IsValidTenant raw.id config
unfolding check_tenant
check_tenant-IsValid raw config h =
    let (id, parsed, h1) = >>=-inv (parse_tenant_id raw.id) _ config h in
    let (digest, h2) = unit_ok (validate_sha256 raw.api_key_sha256) _ config h1 in
    let (checked, h3) = unit_ok (check_all (tenant_checks raw)) _ config h2 in
    let (same_id, filled) = parse_tenant_id-inv raw.id id parsed in
    let (digest_len, digest_hex) = validate_sha256-inv raw.api_key_sha256 digest in
    let (name, (rate, (streams, (ttl, (bounded, (vendors, (blank, _))))))) =
      check_all-inv (tenant_checks raw) checked in
    subst (IsValidTenant raw.id) (ok_injective (tenant_config id raw) config h3) (record {
      keyed = same_id;
      identified = subst (λ (s : Text). is_blank s ≡ false) (sym same_id) filled;
      digest_len = digest_len;
      digest_hex = digest_hex;
      named = name;
      rate_limited = ground (arith, rate);
      stream_limited = ground (arith, streams);
      ttl_positive = ground (arith, ttl);
      ttl_bounded = ground (arith, bounded);
      some_vendor = vendors;
      no_blank_vendor = blank;
    })

-- Insertion puts one entry in and leaves the others.
module _ {V : Type 0} where
  pub lookup-btree_insert :
      (key : Text) (value : V) (k : Text) (m : List (Text × V))
      → lookup k (btree_insert key value m) ≡ (if key == k then some value else lookup k m)
  unfolding btree_insert lookup
  lookup-btree_insert key value k [] = refl
  lookup-btree_insert key value k ((other, old) ∷ rest) = elim (Bool-cases (other == key)) [
    | inl same ↦ ground (arith, same, (==_iff other key).0 same)
    | inr differ ↦ elim (Bool-cases (text_ltb key other)) [
      | inl before ↦ ground (arith, differ, before)
      | inr after ↦ ground (
        arith,
        differ,
        after,
        lookup-btree_insert key value k rest,
        ==_iff other k,
        ==_iff key k,
        ==_iff other key,
      )
    ]
  ]

  pub Entries-btree_insert :
      (P : Text → V → Type 0) (key : Text) (value : V) (m : List (Text × V))
      → P key value
      → Entries P m
      → Entries P (btree_insert key value m)
  unfolding btree_insert
  Entries-btree_insert P key value [] new old = (new, tt)
  Entries-btree_insert P key value ((other, w) ∷ rest) new old = elim (Bool-cases (other == key)) [
    | inl same ↦ rw (same) ((subst (λ t. P t value) (sym ((==_iff other key).0 same)) new, old.1))
    | inr differ ↦ elim (Bool-cases (text_ltb key other)) [
      | inl before ↦ rw (differ, before) ((new, old))
      | inr after ↦ rw (differ, after) ((old.0, Entries-btree_insert P key value rest new old.1))
    ]
  ]

-- The loop keeps what holds of the entries collected so far.
collect_tenants-Entries :
    (tenants : List (Text × TenantConfig)) (raws : List RawTenantConfig)
    (result : List (Text × TenantConfig))
    → Entries IsValidTenant tenants
    → collect_tenants tenants raws ≡ ok result
    → Entries IsValidTenant result
unfolding collect_tenants
collect_tenants-Entries tenants [] result valid h =
    subst (Entries IsValidTenant) (ok_injective tenants result h) valid
collect_tenants-Entries tenants (raw ∷ raws) result valid h =
    let (config, checked, h1) = >>=-inv (check_tenant raw) _ result h in
    let (_, h2) = unit_ok (reject_if (contains_key raw.id tenants) _) _ result h1 in
    collect_tenants-Entries (btree_insert raw.id config tenants) raws result
      (Entries-btree_insert IsValidTenant raw.id config tenants
        (check_tenant-IsValid raw config checked) valid)
      h2

-- If a configuration file's tenants are accepted, then every tenant of the set is valid: its key is
-- its id, which is not blank, its digest has 64 lower-case hexadecimal digits, its name is not
-- blank, its limits are positive, its default time to live is positive and at most the greatest
-- one, and it names at least one vendor and no blank one.
pub tenants_from-IsValid :
    (raws : List RawTenantConfig) (set : TenantConfigSet)
    → tenants_from raws ≡ ok set
    → Entries IsValidTenant set.tenants
unfolding tenants_from
tenants_from-IsValid [] set h = cc
tenants_from-IsValid (raw ∷ raws) set h =
    let (tenants, collected, h1) = >>=-inv (collect_tenants [] (raw ∷ raws)) _ set h in
    let same : ◌≡◌ {A = TenantConfigSet} (record { tenants = tenants }) set = cc in
    subst (λ (s : TenantConfigSet). Entries IsValidTenant s.tenants) same
      (collect_tenants-Entries [] (raw ∷ raws) tenants tt collected)

-- An insertion under a fresh key leaves the entries of the others.
btree_insert-keeps :
    {V : Type 0} (key : Text) (value : V) (k : Text) (old : V) (m : List (Text × V))
    → lookup k m ≡ some old
    → contains_key key m ≡ false
    → lookup k (btree_insert key value m) ≡ some old
btree_insert-keeps key value k old m found fresh =
    lookup-btree_insert key value k m ∙ elim (Bool-cases (key == k)) [
      | inl same ↦
          let missing =
            subst (λ t. lookup t m ≡ none) ((==_iff key k).0 same)
              (contains_key-none key m fresh) in
          ground (arith, missing)
      | inr differ ↦ ground (arith, differ)
    ]

-- The loop keeps every entry collected so far: a second one with its key ends it.
collect_tenants-keeps :
    (tenants : List (Text × TenantConfig)) (raws : List RawTenantConfig)
    (result : List (Text × TenantConfig)) (k : Text) (config : TenantConfig)
    → lookup k tenants ≡ some config
    → collect_tenants tenants raws ≡ ok result
    → lookup k result ≡ some config
unfolding collect_tenants
collect_tenants-keeps tenants [] result k config found h =
    subst (λ r. lookup k r ≡ some config) (ok_injective tenants result h) found
collect_tenants-keeps tenants (raw ∷ raws) result k config found h =
    let (new, checked, h1) = >>=-inv (check_tenant raw) _ result h in
    let (fresh, h2) = unit_ok (reject_if (contains_key raw.id tenants) _) _ result h1 in
    collect_tenants-keeps (btree_insert raw.id new tenants) raws result k config
      (btree_insert-keeps raw.id new k config tenants found (rejected _ _ fresh)) h2

-- Each configured tenant passes its checks and has its entry.
abbrev pub IsListed : List (Text × TenantConfig) → RawTenantConfig → Type 0
IsListed tenants raw =
    (config : TenantConfig) × (check_tenant raw ≡ ok config) × (lookup raw.id tenants ≡ some config)

collect_tenants-IsListed :
    (tenants : List (Text × TenantConfig)) (raws : List RawTenantConfig)
    (result : List (Text × TenantConfig))
    → collect_tenants tenants raws ≡ ok result
    → All (IsListed result) raws
unfolding collect_tenants
collect_tenants-IsListed tenants [] result h = tt
collect_tenants-IsListed tenants (raw ∷ raws) result h =
    let (new, checked, h1) = >>=-inv (check_tenant raw) _ result h in
    let (fresh, h2) = unit_ok (reject_if (contains_key raw.id tenants) _) _ result h1 in
    let found : lookup raw.id (btree_insert raw.id new tenants) ≡ some new =
      ground (arith, lookup-btree_insert raw.id new raw.id tenants, ==_iff raw.id raw.id) in
    (
      (
        new,
        checked,
        collect_tenants-keeps (btree_insert raw.id new tenants) raws result raw.id new found h2,
      ),
      collect_tenants-IsListed (btree_insert raw.id new tenants) raws result h2,
    )

-- If a configuration file's tenants are accepted, then each of them passes its checks, and looking
-- up its id gives the configuration that the checks gave.
pub tenants_from-IsListed :
    (raws : List RawTenantConfig) (set : TenantConfigSet)
    → tenants_from raws ≡ ok set
    → All (IsListed set.tenants) raws
unfolding tenants_from
tenants_from-IsListed [] set h = cc
tenants_from-IsListed (raw ∷ raws) set h =
    let (tenants, collected, h1) = >>=-inv (collect_tenants [] (raw ∷ raws)) _ set h in
    let same : ◌≡◌ {A = TenantConfigSet} (record { tenants = tenants }) set = cc in
    subst (λ (s : TenantConfigSet). All (IsListed s.tenants) (raw ∷ raws)) same
      (collect_tenants-IsListed [] (raw ∷ raws) tenants collected)

find_enabled-inv :
    (P : Text → TenantConfig → Type 0) (digest : Text) (tenants : List (Text × TenantConfig))
    (config : TenantConfig)
    → Entries P tenants
    → find_enabled digest tenants ≡ some config
    → (config.enabled ≡ true) × (config.api_key_sha256 ≡ digest) × (id : Text) × P id config
unfolding find_enabled
find_enabled-inv P digest [] config valid h = cc
find_enabled-inv P digest ((id, first) ∷ rest) config valid h =
    elim (Bool-cases (first.enabled && (first.api_key_sha256 == digest))) [
      | inl matches ↦
          let same : first ≡ config = ground (arith, matches) in
          subst
            (λ (c : TenantConfig).
              (c.enabled ≡ true) × (c.api_key_sha256 ≡ digest) × (id : Text) × P id c)
            same (ground arith, (==_iff first.api_key_sha256 digest).0 (ground arith), id, valid.0)
      | inr differs ↦ find_enabled-inv P digest rest config valid.1 (ground (arith, differs))
    ]

-- If the tenants were accepted and a bearer token gives a tenant, then the tenant is enabled, its
-- digest is that of the token, and its entry is valid.
pub tenant_for_bearer_token-IsValid :
    (sha256_hex : Text → Text) (raws : List RawTenantConfig) (set : TenantConfigSet) (token : Text)
    (config : TenantConfig)
    → tenants_from raws ≡ ok set
    → tenant_for_bearer_token sha256_hex set token ≡ some config
    → (config.enabled ≡ true)
      × (config.api_key_sha256 ≡ sha256_hex token)
      × (id : Text) × IsValidTenant id config
unfolding tenant_for_bearer_token
tenant_for_bearer_token-IsValid sha256_hex raws set token config accepted found =
    find_enabled-inv IsValidTenant (sha256_hex token) set.tenants config
      (tenants_from-IsValid raws set accepted) found

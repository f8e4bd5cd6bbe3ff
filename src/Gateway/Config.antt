-- ===== src/Gateway/Config.antt =====
-- crates/gateway/src/config.rs: the checks of the tenants and vendors that a configuration file
-- names. The parser of TOML and SHA-256 are not ours: the checks start from the parsed file.
pub mod Tenants
mod Examples
use mooncache.Prelude.{
  text_ltb, btree_insert, ℕ, Bool, true, false, not, ◌&&◌, ◌||◌, List, [], ◌∷◌, ◌++◌, Option, none,
  some, ltb, eqb, if◌then◌else◌, length, Text, text, text_eq, ◌==◌, lookup, contains_key,
}
use mooncache.Common.{
  TenantId, tenant_id_parse, cache_error_text, is_blank, all_lower_hex, CacheResult,
}

-- `Result<_, ConfigError>`, where the error is `ConfigError::Invalid`.
pub data ConfigResult {ℓ} (A : Type ℓ) : Type ℓ where
  ok : A → ConfigResult A
  invalid : Text → ConfigResult A

infixl 5 ◌>>=◌ ◌>>◌
abbrev pub ◌>>=◌ {ℓ κ} :
    {A : Type ℓ} {B : Type κ} → ConfigResult A → (A → ConfigResult B) → ConfigResult B
ok a >>= f = f a
invalid message >>= f = invalid message

abbrev pub ◌>>◌ {ℓ} : {B : Type ℓ} → ConfigResult (Unit {0}) → ConfigResult B → ConfigResult B
m >> k = m >>= λ _. k

-- `if test { return Err(ConfigError::Invalid(message)) }`
abbrev pub reject_if : Bool → Text → ConfigResult (Unit {0})
reject_if true message = invalid message
reject_if false message = ok tt

-- Such tests in a row: the first that holds ends them.
unfoldable pub check_all : List (Bool × Text) → ConfigResult (Unit {0})
check_all [] = ok tt
check_all ((test, message) ∷ checks) = reject_if test message >> check_all checks

unfoldable pub validate_non_empty : Text → Text → ConfigResult (Unit {0})
validate_non_empty value field = reject_if (is_blank value) (field ++ text " must not be empty")

unfoldable pub validate_sha256 : Text → ConfigResult (Unit {0})
validate_sha256 value =
    reject_if (not (eqb (length value) 64 && all_lower_hex value))
      (text "api_key_sha256 must be 64 lowercase hex characters")

pub data TenantCachePolicy : Type 0 where
  cache_first bypass cache_only : TenantCachePolicy

pub record RawTenantConfig : Type 0 where
  pub id : Text
  pub name : Text
  pub enabled : Bool
  pub api_key_sha256 : Text
  pub dram_quota_bytes : ℕ
  pub ssd_quota_bytes : ℕ
  pub request_rate_limit_per_minute : ℕ
  pub stream_concurrency_limit : ℕ
  pub vendor_spend_budget_usd : ℕ
  pub default_ttl_seconds : ℕ
  pub max_ttl_seconds : ℕ
  pub policy : TenantCachePolicy
  pub allowed_vendors : List Text

pub record TenantConfig : Type 0 where
  pub id : TenantId
  pub name : Text
  pub enabled : Bool
  pub api_key_sha256 : Text
  pub dram_quota_bytes : ℕ
  pub ssd_quota_bytes : ℕ
  pub request_rate_limit_per_minute : ℕ
  pub stream_concurrency_limit : ℕ
  pub vendor_spend_budget_usd : ℕ
  pub default_ttl_seconds : ℕ
  pub max_ttl_seconds : ℕ
  pub policy : TenantCachePolicy
  pub allowed_vendors : List Text

pub record TenantConfigSet : Type 0 where
  pub tenants : List (Text × TenantConfig)

-- `TenantId::parse(..).map_err(..)`
unfoldable pub parse_tenant_id : Text → ConfigResult TenantId
unfolding tenant_id_parse
parse_tenant_id id = elim (tenant_id_parse id) [
  | CacheResult.ok tenant_id ↦ ok tenant_id
  | CacheResult.err e ↦ invalid (cache_error_text e)
]

abbrev pub about_tenant : RawTenantConfig → Text → Text
about_tenant raw message = text "tenant `" ++ (raw.id ++ (text "` " ++ message))

unfoldable pub no_vendors : List Text → Bool
no_vendors [] = true
no_vendors (vendor ∷ vendors) = false

-- `iter().any(|vendor| vendor.trim().is_empty())`
unfoldable pub any_blank : List Text → Bool
any_blank [] = false
any_blank (vendor ∷ vendors) = is_blank vendor || any_blank vendors

-- The tests of one round of the loop of `parse_toml`, after the id and the digest.
abbrev pub tenant_checks : RawTenantConfig → List (Bool × Text)
tenant_checks raw =
    (is_blank raw.name, about_tenant raw (text "name must not be empty"))
    ∷ (
      eqb raw.request_rate_limit_per_minute 0,
      about_tenant raw (text "request_rate_limit_per_minute must be greater than zero"),
    )
    ∷ (
      eqb raw.stream_concurrency_limit 0,
      about_tenant raw (text "stream_concurrency_limit must be greater than zero"),
    )
    ∷ (
      eqb raw.default_ttl_seconds 0 || eqb raw.max_ttl_seconds 0,
      about_tenant raw (text "TTL values must be greater than zero"),
    )
    ∷ (
      ltb raw.max_ttl_seconds raw.default_ttl_seconds,
      about_tenant raw (text "default_ttl_seconds must not exceed max_ttl_seconds"),
    )
    ∷ (no_vendors raw.allowed_vendors, about_tenant raw (text "must allow at least one vendor"))
    ∷ (
      any_blank raw.allowed_vendors,
      about_tenant raw (text "allowed_vendors must not contain empty values"),
    )
    ∷ []

-- The configuration that the round builds.
abbrev pub tenant_config : TenantId → RawTenantConfig → TenantConfig
tenant_config id raw = record {
  id = id;
  name = raw.name;
  enabled = raw.enabled;
  api_key_sha256 = raw.api_key_sha256;
  dram_quota_bytes = raw.dram_quota_bytes;
  ssd_quota_bytes = raw.ssd_quota_bytes;
  request_rate_limit_per_minute = raw.request_rate_limit_per_minute;
  stream_concurrency_limit = raw.stream_concurrency_limit;
  vendor_spend_budget_usd = raw.vendor_spend_budget_usd;
  default_ttl_seconds = raw.default_ttl_seconds;
  max_ttl_seconds = raw.max_ttl_seconds;
  policy = raw.policy;
  allowed_vendors = raw.allowed_vendors;
}

unfoldable pub check_tenant : RawTenantConfig → ConfigResult TenantConfig
unfolding parse_tenant_id validate_sha256 no_vendors any_blank check_all
check_tenant raw = do
  id ← parse_tenant_id raw.id
  validate_sha256 raw.api_key_sha256
  check_all (tenant_checks raw)
  ok (tenant_config id raw)

-- The loop of `parse_toml`, from the tenants collected so far.
unfoldable pub collect_tenants :
    List (Text × TenantConfig) → List RawTenantConfig → ConfigResult (List (Text × TenantConfig))
unfolding check_tenant btree_insert
collect_tenants tenants [] = ok tenants
collect_tenants tenants (raw ∷ raws) = do
  config ← check_tenant raw
  reject_if (contains_key raw.id tenants) (text "duplicate tenant id `" ++ (raw.id ++ text "`"))
  collect_tenants (btree_insert raw.id config tenants) raws

-- `TenantConfigSet::parse_toml`, once the file is parsed.
unfoldable pub tenants_from : List RawTenantConfig → ConfigResult TenantConfigSet
unfolding collect_tenants
tenants_from [] = invalid (text "tenant config must contain at least one tenant")
tenants_from (raw ∷ raws) = do
  tenants ← collect_tenants [] (raw ∷ raws)
  ok (record { tenants = tenants })

-- `TenantConfigSet::tenant`
unfoldable pub tenant : TenantConfigSet → Text → Option TenantConfig
tenant set tenant_id = lookup tenant_id set.tenants

-- The `find` over the values, in the order of the keys.
unfoldable pub find_enabled : Text → List (Text × TenantConfig) → Option TenantConfig
find_enabled digest [] = none
find_enabled digest ((id, config) ∷ rest) =
    if config.enabled && (config.api_key_sha256 == digest)
    then some config
    else find_enabled digest rest

-- `sha256_hex` is the digest of a text as lower-case hexadecimal digits.
unfoldable pub tenant_for_bearer_token :
    (Text → Text) → TenantConfigSet → Text → Option TenantConfig
unfolding find_enabled
tenant_for_bearer_token sha256_hex set token = find_enabled (sha256_hex token) set.tenants

pub record VendorModelConfig : Type 0 where
  pub requested : Text
  pub resolved : Text
  pub cache_eligible : Bool

-- `RawVendorConfig`, and `VendorConfig`, which has the same fields.
pub record VendorConfig : Type 0 where
  pub id : Text
  pub adapter : Text
  pub adapter_version : Text
  pub base_url : Text
  pub api_key_env : Text
  pub timeout_ms : ℕ
  pub headers : List (Text × Text)
  pub models : List VendorModelConfig

pub record VendorConfigSet : Type 0 where
  pub vendors : List (Text × VendorConfig)

abbrev pub about_vendor : VendorConfig → Text → Text
about_vendor raw message = text "vendor `" ++ (raw.id ++ (text "` " ++ message))

unfoldable pub no_models : List VendorModelConfig → Bool
no_models [] = true
no_models (model ∷ models) = false

-- `for model in &raw_vendor.models`
unfoldable pub check_models : List VendorModelConfig → ConfigResult (Unit {0})
unfolding validate_non_empty
check_models [] = ok tt
check_models (model ∷ models) = do
  validate_non_empty model.requested (text "vendor model requested")
  validate_non_empty model.resolved (text "vendor model resolved")
  check_models models

-- `validate_non_empty`, then two tests, of one round of the loop of `parse_toml`.
abbrev pub vendor_checks : VendorConfig → List (Bool × Text)
vendor_checks raw =
    (is_blank raw.id, text "vendor id must not be empty")
    ∷ (is_blank raw.adapter, text "vendor adapter must not be empty")
    ∷ (is_blank raw.adapter_version, text "vendor adapter_version must not be empty")
    ∷ (is_blank raw.base_url, text "vendor base_url must not be empty")
    ∷ (is_blank raw.api_key_env, text "vendor api_key_env must not be empty")
    ∷ (eqb raw.timeout_ms 0, about_vendor raw (text "timeout_ms must be greater than zero"))
    ∷ (no_models raw.models, about_vendor raw (text "must define at least one model"))
    ∷ []

unfoldable pub check_vendor : VendorConfig → ConfigResult VendorConfig
unfolding no_models check_models check_all
check_vendor raw = do check_all (vendor_checks raw); check_models raw.models; ok raw

unfoldable pub collect_vendors :
    List (Text × VendorConfig) → List VendorConfig → ConfigResult (List (Text × VendorConfig))
unfolding check_vendor btree_insert
collect_vendors vendors [] = ok vendors
collect_vendors vendors (raw ∷ raws) = do
  config ← check_vendor raw
  reject_if (contains_key raw.id vendors) (text "duplicate vendor id `" ++ (raw.id ++ text "`"))
  collect_vendors (btree_insert raw.id config vendors) raws

-- `VendorConfigSet::parse_toml`, once the file is parsed.
unfoldable pub vendors_from : List VendorConfig → ConfigResult VendorConfigSet
unfolding collect_vendors
vendors_from [] = invalid (text "vendor config must contain at least one vendor")
vendors_from (raw ∷ raws) = do
  vendors ← collect_vendors [] (raw ∷ raws)
  ok (record { vendors = vendors })

-- `VendorConfigSet::vendor`
unfoldable pub vendor : VendorConfigSet → Text → Option VendorConfig
vendor set vendor_id = lookup vendor_id set.vendors

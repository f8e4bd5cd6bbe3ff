-- ===== src/Gateway/Config/Examples.antt =====
-- Runs of the checks of a configuration file, and the theorems at concrete inputs.
use mooncache.Prelude.{
  text_ltb, ◌≡◌, refl, if◌then◌else◌, ◌==◌, true, List, [], ◌∷◌, some, Text, text, text_eq,
  text_beq, contains_key, lookup, Entries, All,
}
use mooncache.Common.{is_blank, is_whitespace, is_lower_hex, all_lower_hex}
use mooncache.Gateway.Config.{
  ok, invalid, RawTenantConfig, TenantConfig, TenantConfigSet, TenantCachePolicy, tenants_from,
  tenant_config, tenant_for_bearer_token, VendorConfig, vendors_from,
}
use mooncache.Gateway.Config.Tenants.{
  IsValidTenant, IsListed, tenants_from-IsValid, tenants_from-IsListed,
  tenant_for_bearer_token-IsValid,
}

abbrev digest_a : Text
digest_a = text "00112233445566778899aabbccddeeff00112233445566778899aabbccddeeff"

abbrev digest_b : Text
digest_b = text "ffeeddccbbaa99887766554433221100ffeeddccbbaa99887766554433221100"

abbrev raw_of : Text → Text → RawTenantConfig
raw_of id digest = record {
  id = id;
  name = text "A team";
  enabled = true;
  api_key_sha256 = digest;
  dram_quota_bytes = 1000;
  ssd_quota_bytes = 0;
  request_rate_limit_per_minute = 60;
  stream_concurrency_limit = 2;
  vendor_spend_budget_usd = 10;
  default_ttl_seconds = 60;
  max_ttl_seconds = 3600;
  policy = TenantCachePolicy.cache_first;
  allowed_vendors = text "mock" ∷ [];
}

abbrev raws : List RawTenantConfig
raws = raw_of (text "team-b") digest_b ∷ raw_of (text "team-a") digest_a ∷ []

-- The set is in the order of the ids.
abbrev config_a : TenantConfig
config_a = tenant_config (record { value = text "team-a" }) (raw_of (text "team-a") digest_a)

abbrev config_b : TenantConfig
config_b = tenant_config (record { value = text "team-b" }) (raw_of (text "team-b") digest_b)

abbrev accepted : TenantConfigSet
accepted = record { tenants = (text "team-a", config_a) ∷ (text "team-b", config_b) ∷ [] }

raws-accepted : tenants_from raws ≡ ok accepted
unfolding tenants_from is_blank text is_whitespace all_lower_hex is_lower_hex contains_key lookup
    text_beq text_ltb
raws-accepted = refl

-- A digest function for the tests.
abbrev digest_of : Text → Text
digest_of token = if token == text "key-a" then digest_a else digest_b

key-a-found : tenant_for_bearer_token digest_of accepted (text "key-a") ≡ some config_a
unfolding tenant_for_bearer_token text_beq text
key-a-found = refl

-- A second tenant with the id of the first, and a digest that is too short.
duplicate-refused :
    tenants_from (raw_of (text "a") digest_a ∷ raw_of (text "a") digest_b ∷ [])
    ≡ invalid (text "duplicate tenant id `a`")
unfolding tenants_from is_blank text is_whitespace all_lower_hex is_lower_hex contains_key lookup
    text_beq text_ltb
duplicate-refused = refl

short_digest-refused :
    tenants_from (raw_of (text "a") (text "00") ∷ [])
    ≡ invalid (text "api_key_sha256 must be 64 lowercase hex characters")
unfolding tenants_from is_blank text is_whitespace all_lower_hex is_lower_hex contains_key lookup
    text_beq text_ltb
short_digest-refused = refl

-- Two tenants may have the same digest: the token then authenticates the one with the first id.
abbrev shared_config : Text → TenantConfig
shared_config id = tenant_config (record { value = id }) (raw_of id digest_a)

abbrev shared : TenantConfigSet
shared = record {
  tenants = (text "a", shared_config (text "a")) ∷ (text "b", shared_config (text "b")) ∷ [];
}

shared_digest-accepted :
    tenants_from (raw_of (text "b") digest_a ∷ raw_of (text "a") digest_a ∷ []) ≡ ok shared
unfolding tenants_from is_blank text is_whitespace all_lower_hex is_lower_hex contains_key lookup
    text_beq text_ltb
shared_digest-accepted = refl

shared_digest-first :
    tenant_for_bearer_token (λ token. digest_a) shared (text "key of b")
    ≡ some (shared_config (text "a"))
unfolding tenant_for_bearer_token text_beq text
shared_digest-first = refl

abbrev raw_vendor : VendorConfig
raw_vendor = record {
  id = text "mock";
  adapter = text "mock";
  adapter_version = text "1";
  base_url = text "http://localhost";
  api_key_env = text "KEY";
  timeout_ms = 1000;
  headers = [];
  models = record { requested = text "m"; resolved = text "m-1"; cache_eligible = true } ∷ [];
}

vendor-accepted :
    vendors_from (raw_vendor ∷ []) ≡ ok (record { vendors = (text "mock", raw_vendor) ∷ [] })
unfolding vendors_from is_blank text is_whitespace contains_key lookup text_beq text_ltb
vendor-accepted = refl

vendor_without_timeout-refused :
    vendors_from (record raw_vendor { timeout_ms = 0 } ∷ [])
    ≡ invalid (text "vendor `mock` timeout_ms must be greater than zero")
unfolding vendors_from is_blank text is_whitespace contains_key lookup text_beq text_ltb
vendor_without_timeout-refused = refl

tenants_from-IsValid_example : Entries IsValidTenant accepted.tenants
tenants_from-IsValid_example = tenants_from-IsValid raws accepted raws-accepted

tenants_from-IsListed_example : All (IsListed accepted.tenants) raws
tenants_from-IsListed_example = tenants_from-IsListed raws accepted raws-accepted

tenant_for_bearer_token-IsValid_example :
    (config_a.enabled ≡ true)
    × (config_a.api_key_sha256 ≡ digest_of (text "key-a"))
    × (id : Text) × IsValidTenant id config_a
tenant_for_bearer_token-IsValid_example =
    tenant_for_bearer_token-IsValid digest_of raws accepted (text "key-a") config_a raws-accepted
      key-a-found

-- ===== src/Fingerprint.antt =====
-- crates/fingerprint/src: the canonical form of a JSON document, which requests may be cached, and
-- the key of a request. `serde_json::to_vec` and SHA-256 are parameters.
pub mod Order
pub mod Canonical
pub mod Document
mod Examples
use mooncache.Prelude.{
  text_ltb, ℕ, Bool, true, false, ltb, eqb, List, [], ◌∷◌, Option, none, some, if◌then◌else◌, Text,
  text,
}
use mooncache.Common.{
  CacheError, CacheResult, ok, err, invalid_id, TenantId, CacheKey, cache_key_from_hex,
}
use mooncache.Json.{
  Json, null, boolean, number, string, array, object, Items, no_items, item, Members, no_members,
  member, get,
}

module _ {Number : Type 0} where
  -- Puts a member where `keys.sort()` has its key.
  unfoldable pub insert_member : Text → Json Number → Members Number → Members Number
  insert_member key value no_members = member key value no_members
  insert_member key value (member name other rest) =
      if text_ltb key name
      then member key value (member name other rest)
      else member name other (insert_member key value rest)

  unfoldable mutual
    pub canonicalize : Json Number → Json Number
    canonicalize (object members) = object (canonical_members members)
    canonicalize (array items) = array (canonical_items items)
    canonicalize null = null
    canonicalize (boolean b) = boolean b
    canonicalize (number n) = number n
    canonicalize (string s) = string s

    pub canonical_items : Items Number → Items Number
    canonical_items no_items = no_items
    canonical_items (item value rest) = item (canonicalize value) (canonical_items rest)

    pub canonical_members : Members Number → Members Number
    canonical_members no_members = no_members
    canonical_members (member name value rest) =
        insert_member name (canonicalize value) (canonical_members rest)

pub data EligibilityDecision : Type 0 where
  cacheable : EligibilityDecision
  bypassed : (reason : Text) → EligibilityDecision

-- `is_zero n` tells whether `as_f64` of the number is `0.0`, or nothing.
unfoldable pub temperature_is_zero : {Number : Type 0} → (Number → Bool) → Json Number → Bool
temperature_is_zero is_zero body = elim (get (text "temperature") body) [
  | none ↦ true
  | some temperature ↦ elim temperature [ number n ↦ is_zero n | _ ↦ true ]
]

unfoldable pub classify_request :
    {Number : Type 0} → (Number → Bool) → Json Number → Bool → EligibilityDecision
unfolding temperature_is_zero
classify_request is_zero body force_replay =
    if force_replay
    then cacheable
    else if temperature_is_zero is_zero body
    then cacheable
    else bypassed (text "stochastic temperature requires explicit force replay")

pub record FingerprintInput (Number : Type 0) : Type 0 where
  pub tenant_id : TenantId
  pub endpoint_version : Text
  pub vendor_id : Text
  pub resolved_model_version : Text
  pub adapter_version : Text
  pub cache_policy : Text
  pub body : Json Number

-- The document that is hashed.
unfoldable pub fingerprint_document : {Number : Type 0} → FingerprintInput Number → Json Number
fingerprint_document input = object (
    member (text "tenant_id") (string input.tenant_id.value) (
      member (text "endpoint_version") (string input.endpoint_version) (
        member (text "vendor_id") (string input.vendor_id) (
          member (text "resolved_model_version") (string input.resolved_model_version) (
            member (text "adapter_version") (string input.adapter_version) (
              member (text "cache_policy") (string input.cache_policy)
                (member (text "body") input.body no_members)))))))

-- `serde_json::to_vec` and the digest as lower-case hexadecimal digits.
pub record Hashing (Number : Type 0) : Type 0 where
  -- The bytes of a document, or the message of the error.
  pub to_vec : Json Number → Option (List ℕ)
  pub to_vec_error : Json Number → Text
  pub sha256_hex : List ℕ → Text

-- The key of a document in canonical form.
unfoldable pub document_key :
    {Number : Type 0} → Hashing Number → Json Number → CacheResult CacheKey
document_key h document = elim (h.to_vec document) [
  | none ↦ err (invalid_id (h.to_vec_error document))
  | some bytes ↦ cache_key_from_hex (h.sha256_hex bytes)
]

unfoldable pub compute_cache_key :
    {Number : Type 0} → Hashing Number → FingerprintInput Number → CacheResult CacheKey
unfolding canonicalize fingerprint_document document_key
compute_cache_key h input = document_key h (canonicalize (fingerprint_document input))

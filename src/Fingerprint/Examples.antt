-- ===== src/Fingerprint/Examples.antt =====
-- Tests of crates/fingerprint, and the theorems about it at concrete inputs.
use mooncache.Prelude.{
  text_ltb, ℕ, zero, suc, ◌≡◌, ◌≢◌, refl, Bool, true, false, [], ◌∷◌, some, Text, text, arith, eqb,
  text_beq,
}
use mooncache.Common.{ok, cache_key_from_hex, all_lower_hex, is_lower_hex}
use mooncache.Json.{Json, number, object, member, no_members, get, get_member}
use mooncache.Fingerprint.{
  cacheable, bypassed, classify_request, temperature_is_zero, canonicalize, canonical_members,
  insert_member, FingerprintInput, fingerprint_document, Hashing, document_key, compute_cache_key,
}
use mooncache.Fingerprint.Canonical.{same_object, swapped, compute_cache_key-SameJson}
use mooncache.Fingerprint.Document.{fingerprint_document-injective}

abbrev zero_temperature : ℕ → Bool
zero_temperature n = eqb n 0

abbrev with_temperature : ℕ → Json ℕ
with_temperature n = object (member (text "temperature") (number n) no_members)

warm :
    classify_request zero_temperature (with_temperature 7) false
    ≡ bypassed (text "stochastic temperature requires explicit force replay")
unfolding classify_request temperature_is_zero get get_member text text_beq
warm = refl

replayed : classify_request zero_temperature (with_temperature 7) true ≡ cacheable
unfolding classify_request
replayed = refl

abbrev left_body : Json ℕ
left_body = object (member (b'b' ∷ []) (number 1) (member (b'a' ∷ []) (number 2) no_members))

abbrev right_body : Json ℕ
right_body = object (member (b'a' ∷ []) (number 2) (member (b'b' ∷ []) (number 1) no_members))

sorted : canonicalize left_body ≡ right_body
unfolding canonicalize canonical_members insert_member text_ltb
sorted = refl

names_differ : ◌≢◌ {A = Text} (b'b' ∷ []) (b'a' ∷ [])
names_differ e = ground arith

abbrev request : FingerprintInput ℕ
request = record {
  tenant_id = record { value = b't' ∷ [] };
  endpoint_version = b'e' ∷ [];
  vendor_id = b'v' ∷ [];
  resolved_model_version = b'm' ∷ [];
  adapter_version = b'a' ∷ [];
  cache_policy = b'p' ∷ [];
  body = left_body;
}

abbrev repeated : ℕ → Text
repeated zero = []
repeated (suc n) = b'a' ∷ repeated n

abbrev hashing : Hashing ℕ
hashing = record {
  to_vec = λ document. some [];
  to_vec_error = λ document. [];
  sha256_hex = λ bytes. repeated 64;
}

compute_cache_key-SameJson_example :
    compute_cache_key hashing (record request { body = right_body })
    ≡ compute_cache_key hashing request
compute_cache_key-SameJson_example =
    compute_cache_key-SameJson hashing request right_body (same_object (swapped names_differ))

same_documents :
    canonicalize (fingerprint_document request)
    ≡ canonicalize (fingerprint_document (record request { body = right_body }))
unfolding canonicalize canonical_members insert_member text_ltb fingerprint_document text
same_documents = refl

request_key : compute_cache_key hashing request ≡ ok (record { value = repeated 64 })
unfolding compute_cache_key document_key cache_key_from_hex all_lower_hex is_lower_hex
request_key = refl

fingerprint_document-injective_example :
    (request.tenant_id ≡ request.tenant_id)
    × (request.endpoint_version ≡ request.endpoint_version)
    × (request.vendor_id ≡ request.vendor_id)
    × (request.resolved_model_version ≡ request.resolved_model_version)
    × (request.adapter_version ≡ request.adapter_version)
    × (request.cache_policy ≡ request.cache_policy)
    × (canonicalize left_body ≡ canonicalize right_body)
fingerprint_document-injective_example =
    fingerprint_document-injective request (record request { body = right_body }) same_documents

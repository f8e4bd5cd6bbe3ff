-- ===== src/Fingerprint/Document.antt =====
-- What the document that crates/fingerprint/src/lib.rs hashes says of the request.
use mooncache.Prelude.{text_ltb, ◌≡◌, refl, sym, ap, subst, text, text_beq, some, Text, ◌∙◌, Option}
use mathlib.Core.Option.{some-injective}
use mooncache.Common.{TenantId}
use mooncache.Json.{Json, string, get, get_member}
use mooncache.Fingerprint.{
  insert_member, canonicalize, canonical_members, FingerprintInput, fingerprint_document,
}

string-injective :
    {Number : Type 0} (s t : Text) → ◌≡◌ {A = Json Number} (string s) (string t) → s ≡ t
string-injective s t e = cc

module _ {Number : Type 0} where
  -- What the canonical document of a request has under each name.
  record Shows (input : FingerprintInput Number) (document : Json Number) : Type 0 where
    tenant_id : get (text "tenant_id") document ≡ some (string input.tenant_id.value)
    endpoint_version : get (text "endpoint_version") document ≡ some (string input.endpoint_version)
    vendor_id : get (text "vendor_id") document ≡ some (string input.vendor_id)
    resolved_model_version :
        get (text "resolved_model_version") document ≡ some (string input.resolved_model_version)
    adapter_version : get (text "adapter_version") document ≡ some (string input.adapter_version)
    cache_policy : get (text "cache_policy") document ≡ some (string input.cache_policy)
    body : get (text "body") document ≡ some (canonicalize input.body)

  canonical-Shows :
      (input : FingerprintInput Number) → Shows input (canonicalize (fingerprint_document input))
  unfolding canonicalize canonical_members fingerprint_document insert_member text_ltb text get
      get_member text_beq
  canonical-Shows input = record {
    tenant_id = refl;
    endpoint_version = refl;
    vendor_id = refl;
    resolved_model_version = refl;
    adapter_version = refl;
    cache_policy = refl;
    body = refl;
  }

  same_string :
      (o : Option (Json Number)) (s t : Text) → o ≡ some (string s) → o ≡ some (string t) → s ≡ t
  same_string o s t e f = string-injective s t (some-injective (string s) (string t) (sym e ∙ f))

-- Two requests whose hashed documents are equal have the same tenant, versions, vendor and cache
-- policy, and bodies with the same canonical form.
pub fingerprint_document-injective :
    {Number : Type 0} (a b : FingerprintInput Number)
    → canonicalize (fingerprint_document a) ≡ canonicalize (fingerprint_document b)
    → (a.tenant_id ≡ b.tenant_id)
      × (a.endpoint_version ≡ b.endpoint_version)
      × (a.vendor_id ≡ b.vendor_id)
      × (a.resolved_model_version ≡ b.resolved_model_version)
      × (a.adapter_version ≡ b.adapter_version)
      × (a.cache_policy ≡ b.cache_policy)
      × (canonicalize a.body ≡ canonicalize b.body)
fingerprint_document-injective {Number} a b same =
    let shows_a = canonical-Shows a in
    let shows_b = subst (λ (d : Json Number). Shows b d) (sym same) (canonical-Shows b) in
    (
      ap (λ (v : Text). let r : TenantId = record { value = v } in r)
          (same_string _ _ _ shows_a.tenant_id shows_b.tenant_id),
      same_string _ _ _ shows_a.endpoint_version shows_b.endpoint_version,
      same_string _ _ _ shows_a.vendor_id shows_b.vendor_id,
      same_string _ _ _ shows_a.resolved_model_version shows_b.resolved_model_version,
      same_string _ _ _ shows_a.adapter_version shows_b.adapter_version,
      same_string _ _ _ shows_a.cache_policy shows_b.cache_policy,
      some-injective (canonicalize a.body) (canonicalize b.body) (sym shows_a.body ∙ shows_b.body),
    )

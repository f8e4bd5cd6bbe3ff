-- ===== src/Fingerprint/Canonical.antt =====
-- The canonical form of crates/fingerprint/src/canonical_json.rs forgets the order of the members,
-- at every depth, and so does the key of a request.
use mooncache.Prelude.{◌≡◌, ◌≢◌, refl, sym, ap, ◌∙◌, Text}
use mathlib.Core.Path.{ap₂}
use mooncache.Json.{Json, array, object, Items, no_items, item, Members, no_members, member}
use mooncache.Fingerprint.{
  insert_member, canonicalize, canonical_items, canonical_members, FingerprintInput,
  fingerprint_document, Hashing, compute_cache_key, document_key,
}
use mooncache.Fingerprint.Order.{insert_member_comm}

-- Two documents that differ only in the order of members, at any depth. Members of one object have
-- different names.
mutual
  pub data SameJson {Number : Type 0} : Json Number → Json Number → Type 0 where
    same_value : (v : Json Number) → SameJson v v
    same_array : {xs ys : Items Number} → SameItems xs ys → SameJson (array xs) (array ys)
    same_object : {ms ns : Members Number} → SameMembers ms ns → SameJson (object ms) (object ns)

  pub data SameItems {Number : Type 0} : Items Number → Items Number → Type 0 where
    same_end : SameItems no_items no_items
    same_item :
        {v w : Json Number} {xs ys : Items Number}
        → SameJson v w
        → SameItems xs ys
        → SameItems (item v xs) (item w ys)

  pub data SameMembers {Number : Type 0} : Members Number → Members Number → Type 0 where
    same_no_members : SameMembers no_members no_members
    same_member :
        {k : Text} {v w : Json Number} {ms ns : Members Number}
        → SameJson v w
        → SameMembers ms ns
        → SameMembers (member k v ms) (member k w ns)
    swapped :
        {k j : Text} {v w : Json Number} {ms : Members Number}
        → k ≢ j
        → SameMembers (member k v (member j w ms)) (member j w (member k v ms))
    chained :
        {ms ns os : Members Number} → SameMembers ms ns → SameMembers ns os → SameMembers ms os

module _ {Number : Type 0} where
  mutual
    unfolding canonicalize canonical_items canonical_members

    -- Documents that differ only in the order of members have the same canonical form.
    pub SameJson-canonicalize : {v w : Json Number} → SameJson v w → canonicalize v ≡ canonicalize w
    SameJson-canonicalize (same_value v) = refl
    SameJson-canonicalize (same_array same) = ap array (SameItems-canonical same)
    SameJson-canonicalize (same_object same) = ap object (SameMembers-canonical same)

    SameItems-canonical :
        {xs ys : Items Number} → SameItems xs ys → canonical_items xs ≡ canonical_items ys
    SameItems-canonical same_end = refl
    SameItems-canonical (same_item same rest) =
        ap₂ item (SameJson-canonicalize same) (SameItems-canonical rest)

    SameMembers-canonical :
        {ms ns : Members Number} → SameMembers ms ns → canonical_members ms ≡ canonical_members ns
    SameMembers-canonical same_no_members = refl
    SameMembers-canonical (same_member {k} same rest) =
        ap₂ (insert_member k) (SameJson-canonicalize same) (SameMembers-canonical rest)
    SameMembers-canonical (swapped {k} {j} {v} {w} {ms} differ) =
        insert_member_comm k j (canonicalize v) (canonicalize w) (canonical_members ms) differ
    SameMembers-canonical (chained same more) =
        SameMembers-canonical same ∙ SameMembers-canonical more

fingerprint_document-SameJson :
    {Number : Type 0} (input : FingerprintInput Number) (body : Json Number)
    → SameJson input.body body
    → SameJson (fingerprint_document input) (fingerprint_document (record input { body = body }))
unfolding fingerprint_document
fingerprint_document-SameJson input body same = same_object (
    same_member (same_value _) (
      same_member (same_value _) (
        same_member (same_value _) (
          same_member (same_value _) (
            same_member (same_value _)
              (same_member (same_value _) (same_member same same_no_members)))))))

-- A request has the same key, or the same error, whatever the order of the members of its body, at
-- any depth.
pub compute_cache_key-SameJson :
    {Number : Type 0} (h : Hashing Number) (input : FingerprintInput Number) (body : Json Number)
    → SameJson input.body body
    → compute_cache_key h (record input { body = body }) ≡ compute_cache_key h input
unfolding compute_cache_key
compute_cache_key-SameJson h input body same =
    ap (document_key h)
      (sym (SameJson-canonicalize (fingerprint_document-SameJson input body same)))

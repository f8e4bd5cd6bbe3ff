-- ===== src/Fingerprint/Order.antt =====
-- The order of texts by code points is a strict total order, and putting two members of different
-- keys in their places gives the same in either order (crates/fingerprint/src/canonical_json.rs).
use mooncache.Prelude.{
  text_ltb, ◌≡◌, ◌≢◌, refl, sym, ◌⊎◌, inl, inr, true, false, [], ◌∷◌, arith, Text, Bool-cases,
}
use mooncache.Json.{Json, Members, no_members, member}
use mooncache.Fingerprint.{insert_member}

pub text_ltb-asym : (s t : Text) → text_ltb s t ≡ true → text_ltb t s ≡ false
unfolding text_ltb
text_ltb-asym [] [] h = refl
text_ltb-asym [] (d ∷ t) h = refl
text_ltb-asym (c ∷ s) [] h = ground arith
text_ltb-asym (c ∷ s) (d ∷ t) h = ground (arith, text_ltb-asym s t)

pub text_ltb_trans :
    (s t u : Text) → text_ltb s t ≡ true → text_ltb t u ≡ true → text_ltb s u ≡ true
unfolding text_ltb
text_ltb_trans [] t [] h k = ground arith
text_ltb_trans [] t (e ∷ u) h k = refl
text_ltb_trans (c ∷ s) [] u h k = ground arith
text_ltb_trans (c ∷ s) (d ∷ t) [] h k = ground arith
text_ltb_trans (c ∷ s) (d ∷ t) (e ∷ u) h k = ground (arith, text_ltb_trans s t u)

-- Texts of which neither is below the other are the same.
pub text_ltb-total : (s t : Text) → text_ltb s t ≡ false → text_ltb t s ≡ false → s ≡ t
unfolding text_ltb
text_ltb-total [] [] h k = refl
text_ltb-total [] (d ∷ t) h k = ground arith
text_ltb-total (c ∷ s) [] h k = ground arith
text_ltb-total (c ∷ s) (d ∷ t) h k =
    let same_head : c ≡ d = ground arith in
    let same_tail : s ≡ t = ground (arith, text_ltb-total s t) in cc

-- Of two different texts one is below the other.
text_ltb-cases :
    (s t : Text)
    → s ≢ t
    → ((text_ltb s t ≡ true) × (text_ltb t s ≡ false))
      ⊎ ((text_ltb t s ≡ true) × (text_ltb s t ≡ false))
text_ltb-cases s t differ = elim (Bool-cases (text_ltb s t)) [
  | inl below ↦ inl (below, text_ltb-asym s t below)
  | inr not_below ↦ elim (Bool-cases (text_ltb t s)) [
    | inl above ↦ inr (above, not_below)
    | inr not_above ↦ absurd (differ (text_ltb-total s t not_below not_above))
  ]
]

module _ {Number : Type 0} where
  insert_member-below :
      (k j : Text) (v w : Json Number) (members : Members Number)
      → text_ltb k j ≡ true
      → text_ltb j k ≡ false
      → insert_member k v (insert_member j w members)
        ≡ insert_member j w (insert_member k v members)
  unfolding insert_member
  insert_member-below k j v w no_members below above = ground arith
  insert_member-below k j v w (member i x rest) below above =
      ground (arith, text_ltb_trans k j i below, insert_member-below k j v w rest below above)

  pub insert_member_comm :
      (k j : Text) (v w : Json Number) (members : Members Number)
      → k ≢ j
      → insert_member k v (insert_member j w members)
        ≡ insert_member j w (insert_member k v members)
  insert_member_comm k j v w members differ = elim (text_ltb-cases k j differ) [
    | inl (below, above) ↦ insert_member-below k j v w members below above
    | inr (below, above) ↦ sym (insert_member-below j k w v members below above)
  ]

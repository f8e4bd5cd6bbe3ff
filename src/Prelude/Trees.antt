-- ===== src/Prelude/Trees.antt =====
-- A `BTreeMap` whose keys are texts, as an association list in the order of the keys.

use mathlib.Core.Bool.{Bool, true, false}
use mathlib.Core.List.{List, [], ◌∷◌}
use mooncache.Prelude.Tests.{if◌then◌else◌, ltb, eqb}
use mooncache.Prelude.Equality.{Text, text_eq, ◌==◌}

-- The order of `str`, by code points.
unfoldable pub text_ltb : Text → Text → Bool
text_ltb [] [] = false
text_ltb [] (d ∷ t) = true
text_ltb (c ∷ s) [] = false
text_ltb (c ∷ s) (d ∷ t) = if ltb c d then true else if eqb c d then text_ltb s t else false

-- `BTreeMap::insert`: the entries are in the order of their keys.
unfoldable pub btree_insert {ℓ} : {V : Type ℓ} → Text → V → List (Text × V) → List (Text × V)
btree_insert key value [] = (key, value) ∷ []
btree_insert key value ((other, old) ∷ rest) =
    if other == key
    then (other, value) ∷ rest
    else if text_ltb key other
    then (key, value) ∷ (other, old) ∷ rest
    else (other, old) ∷ btree_insert key value rest

-- `collect::<BTreeMap<_, _>>()`, into the entries collected so far.
unfoldable pub btree_collect {ℓ} :
    {V : Type ℓ} → List (Text × V) → List (Text × V) → List (Text × V)
unfolding btree_insert
btree_collect entries [] = entries
btree_collect entries ((key, value) ∷ pairs) = btree_collect (btree_insert key value entries) pairs

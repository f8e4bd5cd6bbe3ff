-- ===== src/Prelude/Maps.antt =====
-- A `HashMap` as an association list. A theorem about an arbitrary list says nothing of the order,
-- so what it states of one call holds for every order in which that call iterates over the map.

use mathlib.Core.Path.{◌≡◌, refl}
use mathlib.Core.Bool.{Bool, true, false}
use mathlib.Core.Logic.{◌≢◌, ◌⊎◌, inl, inr}
use mathlib.Core.Option.{Option, none, some, some-injective}
use mathlib.Core.List.{List, [], ◌∷◌}
use native.Mathlib.Omega.{arith}
use mooncache.Prelude.Tests.{if◌then◌else◌, Bool-cases}
use mooncache.Prelude.Equality.{Eq, ◌==◌}

-- Every entry satisfies the predicate.
abbrev pub Entries {ℓ κ μ} : {K : Type ℓ} {V : Type κ} → (K → V → Type μ) → List (K × V) → Type μ
Entries P [] = Unit
Entries P ((j, w) ∷ m) = P j w × Entries P m

module _ {ℓ κ} {K : Type ℓ} {V : Type κ} ⦃e : Eq K⦄ where
  unfoldable pub lookup : K → List (K × V) → Option V
  lookup key [] = none
  lookup key ((other, value) ∷ rest) = if other == key then some value else lookup key rest

  -- `HashMap::insert`: the value of a key that is there is replaced.
  unfoldable pub insert : K → V → List (K × V) → List (K × V)
  insert key value [] = (key, value) ∷ []
  insert key value ((other, old) ∷ rest) =
      if other == key then (other, value) ∷ rest else (other, old) ∷ insert key value rest

  unfoldable pub remove : K → List (K × V) → List (K × V)
  remove k [] = []
  remove k ((j, w) ∷ m) = if j == k then m else (j, w) ∷ remove k m

  unfoldable pub contains_key : K → List (K × V) → Bool
  contains_key k m = elim (lookup k m) [ none ↦ false | some _ ↦ true ]

  pub contains_key-none : (k : K) (m : List (K × V)) → contains_key k m ≡ false → lookup k m ≡ none
  unfolding contains_key
  contains_key-none k m h = ground arith

  -- No key is listed twice, as in every `HashMap`.
  abbrev pub Unique : List (K × V) → Type κ
  Unique [] = Unit
  Unique ((j, w) ∷ m) = (lookup j m ≡ none) × Unique m

  pub lookup-insert :
      (key sought : K) (value : V) (rest : List (K × V))
      → lookup sought (insert key value rest)
        ≡ (if key == sought then some value else lookup sought rest)
  unfolding insert lookup
  lookup-insert key sought value [] = refl
  lookup-insert key sought value ((other, old) ∷ rest) = ground (
    arith,
    lookup-insert key sought value rest,
    e.decides other sought,
    e.decides other key,
    e.decides key sought,
  )

  pub lookup-remove :
      (k j : K) (m : List (K × V))
      → Unique m
      → lookup j (remove k m) ≡ (if k == j then none else lookup j m)
  unfolding lookup remove
  lookup-remove k j [] u = ground arith
  lookup-remove k j ((i, w) ∷ m) u =
      ground (arith, lookup-remove k j m u.1, e.decides i j, e.decides i k, e.decides k j)

  pub insert-insert :
      (k : K) (v w : V) (m : List (K × V)) → insert k w (insert k v m) ≡ insert k w m
  unfolding insert
  insert-insert k v w [] = ground (arith, e.decides k k)
  insert-insert k v w ((j, x) ∷ m) = ground (arith, insert-insert k v w m)

  pub lookup-remove_ne :
      (k j : K) (m : List (K × V)) → (k == j) ≡ false → lookup j (remove k m) ≡ lookup j m
  unfolding lookup remove
  lookup-remove_ne k j [] differ = refl
  lookup-remove_ne k j ((i, w) ∷ m) differ =
      ground (arith, lookup-remove_ne k j m, e.decides i j, e.decides i k, e.decides k j)

  pub lookup-insert_self : (k : K) (v : V) (m : List (K × V)) → lookup k (insert k v m) ≡ some v
  lookup-insert_self k v m = ground (arith, e.decides k k, lookup-insert k k v m)

  pub lookup-insert_ne :
      (k j : K) (v : V) (m : List (K × V)) → (k == j) ≡ false → lookup j (insert k v m) ≡ lookup j m
  lookup-insert_ne k j v m differ = ground (arith, lookup-insert k j v m)

  -- What is found after `insert` is the new value at its key, or was there before.
  pub lookup-insert_inv :
      (k j : K) (v w : V) (m : List (K × V))
      → lookup j (insert k v m) ≡ some w
      → ((k ≡ j) × (v ≡ w)) ⊎ ((k ≢ j) × (lookup j m ≡ some w))
  lookup-insert_inv k j v w m found = elim (Bool-cases (k == j)) [
    | inl hit ↦
        inl ((e.decides k j).0 hit, some-injective v w (ground (arith, lookup-insert k j v m)))
    | inr miss ↦
        inr ((λ same. ground (arith, e.decides k j)), ground (arith, lookup-insert k j v m))
  ]

  pub lookup-remove_inv :
      (k j : K) (w : V) (m : List (K × V))
      → Unique m
      → lookup j (remove k m) ≡ some w
      → (k ≢ j) × (lookup j m ≡ some w)
  lookup-remove_inv k j w m u found = (
    (λ same. ground (arith, e.decides k j, lookup-remove k j m u)),
    ground (arith, e.decides k j, lookup-remove k j m u),
  )

  pub insert-Unique : (k : K) (v : V) (m : List (K × V)) → Unique m → Unique (insert k v m)
  unfolding insert lookup
  insert-Unique k v [] u = (refl, tt)
  insert-Unique k v ((j, w) ∷ m) u =
      ground (arith, e.decides j k, e.decides k j, lookup-insert k j v m, insert-Unique k v m u.1)

  pub remove-Unique : (k : K) (m : List (K × V)) → Unique m → Unique (remove k m)
  unfolding remove
  remove-Unique k [] u = tt
  remove-Unique k ((j, w) ∷ m) u = ground (arith, lookup-remove k j m u.1, remove-Unique k m u.1)

  pub remove_missing : (k : K) (m : List (K × V)) → lookup k m ≡ none → remove k m ≡ m
  unfolding remove lookup
  remove_missing k [] h = refl
  remove_missing k ((j, w) ∷ m) h = ground (arith, remove_missing k m)

  -- `collect::<HashMap<_, _>>()`: a later pair replaces an earlier one of the same key.
  unfoldable pub collect_into : List (K × V) → List (K × V) → List (K × V)
  collect_into m [] = m
  collect_into m ((k, v) ∷ pairs) = collect_into (insert k v m) pairs

  -- A part of a map that a longer map agrees with, one entry longer.
  Entries-cons :
      (j : K) (w : V) (m n : List (K × V))
      → lookup j m ≡ none
      → Entries (λ k v. lookup k m ≡ some v) n
      → Entries (λ k v. lookup k ((j, w) ∷ m) ≡ some v) n
  unfolding lookup
  Entries-cons j w m [] fresh h = tt
  Entries-cons j w m ((i, v) ∷ n) fresh h =
      ground (arith, e.decides j i, Entries-cons j w m n fresh h.1)

  -- Where no key is listed twice, each entry is found.
  pub Unique-Entries : (m : List (K × V)) → Unique m → Entries (λ k v. lookup k m ≡ some v) m
  unfolding lookup
  Unique-Entries [] u = tt
  Unique-Entries ((j, w) ∷ m) u =
      (ground (arith, e.decides j j), Entries-cons j w m m u.0 (Unique-Entries m u.1))

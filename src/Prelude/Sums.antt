-- ===== src/Prelude/Sums.antt =====
-- Predicates on the entries of a map, and sums over them, under `insert` and `remove`.
use Prim.Native.Nat.{ℕ, ◌+◌, ◌≤◌}
use mathlib.Core.Path.{◌≡◌, sym, ap₂, subst}
use mathlib.Core.Logic.{inl, inr}
use mathlib.Core.Option.{none, some, some-injective}
use mathlib.Core.List.{List, [], ◌∷◌}
use native.Mathlib.Omega.{arith}
use mooncache.Prelude.Tests.{Bool-cases}
use mooncache.Prelude.Equality.{Eq, ◌==◌}
use mooncache.Prelude.Maps.{lookup, insert, remove, Entries}

module _ {ℓ κ μ} {K : Type ℓ} {V : Type κ} ⦃e : Eq K⦄ (P : K → V → Type μ) where
  pub lookup-Entries :
      (k : K) {v : V} (m : List (K × V)) → Entries P m → lookup k m ≡ some v → P k v
  unfolding lookup
  lookup-Entries k [] h found = cc
  lookup-Entries k {v} ((j, w) ∷ m) h found = elim (Bool-cases (j == k)) [
    | inl hit ↦
        subst (λ x. x) (ap₂ P ((e.decides j k).0 hit) (some-injective w v (ground arith))) h.0
    | inr miss ↦ lookup-Entries k m h.1 (ground arith)
  ]

  pub insert-Entries :
      (k : K) (v : V) (m : List (K × V)) → Entries P m → P k v → Entries P (insert k v m)
  unfolding insert
  insert-Entries k v [] h p = (p, tt)
  insert-Entries k v ((j, w) ∷ m) h p = elim (Bool-cases (j == k)) [
    | inl hit ↦ rw hit (subst (λ i. P i v) (sym ((e.decides j k).0 hit)) p, h.1)
    | inr miss ↦ rw miss (h.0, insert-Entries k v m h.1 p)
  ]

  pub remove-Entries : (k : K) (m : List (K × V)) → Entries P m → Entries P (remove k m)
  unfolding remove
  remove-Entries k [] h = tt
  remove-Entries k ((j, w) ∷ m) h = ground (arith, remove-Entries k m h.1)

module _ {ℓ κ} {K : Type ℓ} {V : Type κ} ⦃e : Eq K⦄ (weight : K → V → ℕ) where
  -- The sum of the weights of the entries.
  unfoldable pub total : List (K × V) → ℕ
  total [] = 0
  total ((j, w) ∷ m) = weight j w + total m

  pub total-insert_new :
      (k : K) (v : V) (m : List (K × V))
      → lookup k m ≡ none
      → total (insert k v m) ≡ total m + weight k v
  unfolding total insert lookup
  total-insert_new k v [] h = omega arith
  total-insert_new k v ((j, w) ∷ m) h = ground (arith, total-insert_new k v m)

  pub total-insert :
      (k : K) (v : V) (old : V) (m : List (K × V))
      → lookup k m ≡ some old
      → total (insert k v m) + weight k old ≡ total m + weight k v
  unfolding total insert lookup
  total-insert k v old [] h = cc
  total-insert k v old ((j, w) ∷ m) h = ground (arith, e.decides j k, total-insert k v old m)

  pub total-remove :
      (k : K) (old : V) (m : List (K × V))
      → lookup k m ≡ some old
      → total (remove k m) + weight k old ≡ total m
  unfolding total remove lookup
  total-remove k old [] h = cc
  total-remove k old ((j, w) ∷ m) h = ground (arith, e.decides j k, total-remove k old m)

  pub weight-le-total :
      (k : K) (v : V) (m : List (K × V)) → lookup k m ≡ some v → weight k v ≤ total m
  unfolding total lookup
  weight-le-total k v [] h = cc
  weight-le-total k v ((j, w) ∷ m) h = ground (arith, e.decides j k, weight-le-total k v m)

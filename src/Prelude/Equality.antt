-- ===== src/Prelude/Equality.antt =====
-- Boolean equality as an interface, with its instances: numbers, texts and pairs.
use Prim.Native.Nat.{ℕ}
use Prim.Native.Char.{code}
use Prim.Native.String.{String}
use mathlib.Core.Path.{◌≡◌, refl}
use mathlib.Core.Logic.{◌↔◌}
use mathlib.Core.Bool.{Bool, true, false, ◌&&◌}
use mathlib.Core.List.{List, [], ◌∷◌}
use native.Mathlib.Omega.{arith}
use mooncache.Prelude.Tests.{eqb}

pub record Eq {ℓ} (A : Type ℓ) : Type ℓ where
  pub equals : A → A → Bool
  pub decides : (a b : A) → (equals a b ≡ true) ↔ (a ≡ b)

infix 50 ◌==◌
abbrev pub ◌==◌ {ℓ} : {A : Type ℓ} ⦃e : Eq A⦄ → A → A → Bool
◌==◌ ⦃e⦄ = e.equals

pub ==_iff {ℓ} : {A : Type ℓ} ⦃e : Eq A⦄ (a b : A) → ((a == b) ≡ true) ↔ (a ≡ b)
==_iff ⦃e⦄ a b = e.decides a b

pub ==_refl {ℓ} : {A : Type ℓ} ⦃e : Eq A⦄ (a : A) → (a == a) ≡ true
==_refl ⦃e⦄ a = (e.decides a a).1 refl

pub ==_sym {ℓ} : {A : Type ℓ} ⦃e : Eq A⦄ (a b : A) → (a == b) ≡ (b == a)
==_sym ⦃e⦄ a b = ground (arith, e.decides a b, e.decides b a)

pub eqb_iff : (a b : ℕ) → (eqb a b ≡ true) ↔ (a ≡ b)
eqb_iff a b = ((λ h. ground arith), λ h. ground arith)

-- The code points of a text.
abbrev pub Text : Type 0
Text = List ℕ

-- A string literal of the source.
unfoldable pub text : String → Text
text String.[] = []
text (String.◌∷◌ c s) = code c ∷ text s

unfoldable pub text_beq : Text → Text → Bool
text_beq [] [] = true
text_beq (a ∷ s) (b ∷ t) = eqb a b && text_beq s t
text_beq _ _ = false

pub text_beq_iff : (s t : Text) → (text_beq s t ≡ true) ↔ (s ≡ t)
unfolding text_beq
text_beq_iff [] [] = ((λ _. refl), λ _. refl)
text_beq_iff (a ∷ s) [] = ((λ h. cc), λ h. cc)
text_beq_iff [] (b ∷ t) = ((λ h. cc), λ h. cc)
text_beq_iff (a ∷ s) (b ∷ t) = (
  (λ h. ground (arith, text_beq_iff s t, eqb_iff a b)),
  λ h. ground (arith, text_beq_iff s t, eqb_iff a b),
)

instance abbrev pub text_eq : Eq Text
text_eq = record { equals = text_beq; decides = text_beq_iff }

module _ {ℓ κ} {A : Type ℓ} {B : Type κ} ⦃a : Eq A⦄ ⦃b : Eq B⦄ where
  unfoldable pub pair_beq : A × B → A × B → Bool
  pair_beq x y = a.equals x.0 y.0 && b.equals x.1 y.1

  pub pair_beq_iff : (x y : A × B) → (pair_beq x y ≡ true) ↔ (x ≡ y)
  unfolding pair_beq
  pair_beq_iff x y = (
    (λ h. ground (arith, a.decides x.0 y.0, b.decides x.1 y.1)),
    λ h. ground (arith, a.decides x.0 y.0, b.decides x.1 y.1),
  )

  instance abbrev pub pair_eq : Eq (A × B)
  pair_eq = record { equals = pair_beq; decides = pair_beq_iff }

instance abbrev pub nat_eq : Eq ℕ
nat_eq = record { equals = eqb; decides = eqb_iff }

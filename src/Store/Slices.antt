-- ===== src/Store/Slices.antt =====
-- Reading and writing a range of an array, as `&arena[offset..end]` and `copy_from_slice` do.
use mooncache.Prelude.{
  ℕ, zero, suc, ◌+◌, ◌-◌, ◌≤◌, ◌≡◌, refl, ap, ◌⊎◌, inl, inr, List, [], ◌∷◌, Option, none, some,
  arith, length, take, leb, ◌&&◌, if◌then◌else◌,
}

module _ {ℓ} {A : Type ℓ} where
  -- The `len` elements from `offset` on.
  abbrev pub slice : ℕ → ℕ → List A → List A
  slice zero len xs = take len xs
  slice (suc offset) len [] = []
  slice (suc offset) len (x ∷ xs) = slice offset len xs

  -- The array with `ys` written from `offset` on.
  abbrev pub splice : ℕ → List A → List A → List A
  splice zero [] xs = xs
  splice zero (y ∷ ys) [] = []
  splice zero (y ∷ ys) (x ∷ xs) = y ∷ splice zero ys xs
  splice (suc offset) ys [] = []
  splice (suc offset) ys (x ∷ xs) = x ∷ splice offset ys xs

  -- `get(offset..end)`: there is no range that ends before it starts or past the array.
  unfoldable pub get_range : ℕ → ℕ → List A → Option (List A)
  get_range offset end xs =
      if leb offset end && leb end (length xs) then some (slice offset (end - offset) xs) else none

  pub length-splice : (offset : ℕ) (ys xs : List A) → length (splice offset ys xs) ≡ length xs
  length-splice zero [] xs = refl
  length-splice zero (y ∷ ys) [] = refl
  length-splice zero (y ∷ ys) (x ∷ xs) = ap suc (length-splice zero ys xs)
  length-splice (suc offset) ys [] = refl
  length-splice (suc offset) ys (x ∷ xs) = ap suc (length-splice offset ys xs)

  pub length-slice :
      (offset len : ℕ) (xs : List A) → offset + len ≤ length xs → length (slice offset len xs) ≡ len
  length-slice zero zero xs fits = refl
  length-slice zero (suc len) [] fits = omega arith
  length-slice zero (suc len) (x ∷ xs) fits = ap suc (length-slice zero len xs (omega arith))
  length-slice (suc offset) len [] fits = omega arith
  length-slice (suc offset) len (x ∷ xs) fits = length-slice offset len xs (omega arith)

  -- What was written is read back.
  pub slice-splice :
      (offset : ℕ) (ys xs : List A)
      → offset + length ys ≤ length xs
      → slice offset (length ys) (splice offset ys xs) ≡ ys
  slice-splice zero [] xs fits = refl
  slice-splice zero (y ∷ ys) [] fits = absurd (omega arith)
  slice-splice zero (y ∷ ys) (x ∷ xs) fits =
      ap (λ (zs : List A). y ∷ zs) (slice-splice zero ys xs (omega arith))
  slice-splice (suc offset) ys [] fits = absurd (omega arith)
  slice-splice (suc offset) ys (x ∷ xs) fits = slice-splice offset ys xs (omega arith)

  -- A range before the written one.
  slice-splice_before :
      (offset len at : ℕ) (ys xs : List A)
      → offset + len ≤ at
      → slice offset len (splice at ys xs) ≡ slice offset len xs
  slice-splice_before zero zero at ys xs before = refl
  slice-splice_before zero (suc len) (suc at) ys [] before = refl
  slice-splice_before zero (suc len) (suc at) ys (x ∷ xs) before =
      ap (λ (zs : List A). x ∷ zs) (slice-splice_before zero len at ys xs (omega arith))
  slice-splice_before zero (suc len) zero ys xs before = absurd (omega arith)
  slice-splice_before (suc offset) len zero ys xs before = absurd (omega arith)
  slice-splice_before (suc offset) len (suc at) ys [] before = refl
  slice-splice_before (suc offset) len (suc at) ys (x ∷ xs) before =
      slice-splice_before offset len at ys xs (omega arith)

  -- A range after the written one.
  slice-splice_after :
      (offset len at : ℕ) (ys xs : List A)
      → at + length ys ≤ offset
      → slice offset len (splice at ys xs) ≡ slice offset len xs
  slice-splice_after offset len zero [] xs after = refl
  slice-splice_after zero len zero (y ∷ ys) xs after = absurd (omega arith)
  slice-splice_after (suc offset) len zero (y ∷ ys) [] after = refl
  slice-splice_after (suc offset) len zero (y ∷ ys) (x ∷ xs) after =
      slice-splice_after offset len zero ys xs (omega arith)
  slice-splice_after zero len (suc at) ys xs after = absurd (omega arith)
  slice-splice_after (suc offset) len (suc at) ys [] after = refl
  slice-splice_after (suc offset) len (suc at) ys (x ∷ xs) after =
      slice-splice_after offset len at ys xs (omega arith)

  -- A write leaves every range alone that it does not overlap.
  pub slice-splice_disjoint :
      (offset len at : ℕ) (ys xs : List A)
      → (offset + len ≤ at) ⊎ (at + length ys ≤ offset)
      → slice offset len (splice at ys xs) ≡ slice offset len xs
  slice-splice_disjoint offset len at ys xs (inl before) =
      slice-splice_before offset len at ys xs before
  slice-splice_disjoint offset len at ys xs (inr after) =
      slice-splice_after offset len at ys xs after

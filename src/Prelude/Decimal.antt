-- ===== src/Prelude/Decimal.antt =====
-- Decimal printing of an unsigned number, as `format!("{n}")` does it.
use Prim.Native.Nat.{ℕ, zero, suc, ◌+◌, ◌/◌, ◌%◌}
use mathlib.Core.List.{[], ◌∷◌}
use mooncache.Prelude.Tests.{eqb, if◌then◌else◌}
use mooncache.Prelude.Equality.{Text}

-- One digit a round, the last digit first. `suc n` rounds are enough for `n`, since `n / 10 < n`.
decimal_digits : ℕ → ℕ → Text → Text
decimal_digits zero n acc = acc
decimal_digits (suc fuel) n acc =
    let digit = (b'0' + n % 10) ∷ acc in
    let more = decimal_digits fuel (n / 10) digit in if eqb (n / 10) 0 then digit else more

unfoldable pub decimal : ℕ → Text
unfolding decimal_digits
decimal n = decimal_digits (suc n) n []

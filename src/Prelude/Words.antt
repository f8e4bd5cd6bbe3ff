-- ===== src/Prelude/Words.antt =====
-- Unsigned 64-bit arithmetic as the source writes it. `saturating_sub` is the truncated `-` of ℕ.
use Prim.Native.Nat.{ℕ, ◌+◌, ◌%◌, ◌^◌, ◌≤◌, min}
use mathlib.Core.Path.{◌≡◌}
use mathlib.Core.Option.{Option, none, some}
use native.Mathlib.Omega.{arith}
use mooncache.Prelude.Tests.{leb, if◌then◌else◌}

-- `u64::MAX`, and `usize::MAX` on the 64-bit targets that the program is built for.
abbrev pub u64_max : ℕ
u64_max = 18446744073709551615

unfoldable pub checked_add : ℕ → ℕ → Option ℕ
checked_add a b = if leb (a + b) u64_max then some (a + b) else none

unfoldable pub saturating_add : ℕ → ℕ → ℕ
saturating_add a b = min (a + b) u64_max

pub saturating_add-eq : (a b : ℕ) → a + b ≤ u64_max → saturating_add a b ≡ a + b
unfolding saturating_add
saturating_add-eq a b h = omega arith

pub saturating_add-le : (a b : ℕ) → saturating_add a b ≤ u64_max
unfolding saturating_add
saturating_add-le a b = omega arith

-- `AtomicU64::fetch_add`
unfoldable pub wrapping_add : ℕ → ℕ → ℕ
wrapping_add a b = (a + b) % 2 ^ 64

pub wrapping_add-eq : (a b : ℕ) → a + b ≤ u64_max → wrapping_add a b ≡ a + b
unfolding wrapping_add
wrapping_add-eq a b h = omega arith

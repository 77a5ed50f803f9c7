-- ===== src/Common/Int.antt =====
-- Python's `int` where it may be negative: `negsuc n` is -(n + 1).
use Prim.Native.Nat.{ℕ, zero, suc, ◌+◌, ◌-◌, ◌/◌, ◌%◌, min}
use mathlib.Core.List.{List, [], ◌∷◌}
use sqlide.Common.Tests.{ltb, if◌then◌else◌}

pub data ℤ : Type 0 where
  pos : ℕ → ℤ
  negsuc : ℕ → ℤ

-- `max(0, i)`
abbrev pub pos_part : ℤ → ℕ
pos_part (pos n) = n
pos_part (negsuc n) = 0

-- `max(0, min(top, i))`, which is `min(top, max(0, i))`.
abbrev pub clamp : ℕ → ℤ → ℕ
clamp top i = min top (pos_part i)

-- `i % 7`, which is never negative in Python.
abbrev pub mod_seven : ℤ → ℕ
mod_seven (pos n) = n % 7
mod_seven (negsuc n) = 6 - n % 7

-- Decimal digits in front of `acc`, on fuel; `n` itself is enough.
unfoldable pub digits_onto : ℕ → ℕ → List ℕ → List ℕ
digits_onto zero n acc = acc
digits_onto (suc fuel) n acc =
    let shown = (48 + n % 10) ∷ acc in
    let more = digits_onto fuel (n / 10) shown in if ltb n 10 then shown else more

-- `str(i)`
unfoldable pub show_int : ℤ → List ℕ
unfolding digits_onto
show_int (pos n) = digits_onto (suc n) n []
show_int (negsuc n) = b'-' ∷ digits_onto (suc (suc n)) (suc n) []

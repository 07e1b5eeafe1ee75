-- ===== src/Prelude/Decimal.antt =====
-- Numbers in decimal, as `format!` renders them.
use Prim.Native.Nat.{ℕ, zero, suc, ◌+◌, ◌/◌, ◌%◌}
use mathlib.Core.List.{[], ◌∷◌}
use lnxdrive.Prelude.Tests.{ltb, if◌then◌else◌}
use lnxdrive.Prelude.Strings.{Text}

-- The digits of a number in front of a text; a number has no more digits than `suc` of itself.
unfoldable pub digits : ℕ → ℕ → Text → Text
digits zero n acc = acc
digits (suc fuel) n acc =
    let rest = digits fuel (n / 10) ((48 + n % 10) ∷ acc) in
    if ltb n 10 then (48 + n) ∷ acc else rest

unfoldable pub decimal : ℕ → Text
unfolding digits
decimal n = digits (suc n) n []

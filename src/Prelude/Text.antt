-- ===== src/Prelude/Text.antt =====
-- Rust's `format!`: the pieces of a text joined, and numbers written in decimal.
use Prim.Native.Nat.{ℕ, zero, suc, ◌+◌, ◌/◌, ◌%◌}
use Prim.Native.String.{String, ◌++◌, slice}
use mathlib.Core.List.{List, [], ◌∷◌}
use pahoa.Prelude.Tests.{ltb, if◌then◌else◌}
use pahoa.Prelude.Int.{ℤ, pos, negsuc}

unfoldable pub format : List String → String
format [] = ""
format (s ∷ ss) = s ++ format ss

abbrev digit : ℕ → String
digit d = slice "0123456789" d (d + 1)

-- A number has fewer digits than its value plus one.
unfoldable decimal : ℕ → ℕ → String
decimal zero n = ""
decimal (suc fuel) n =
    let front = decimal fuel (n / 10) in if ltb n 10 then digit n else front ++ digit (n % 10)

unfoldable pub show : ℕ → String
unfolding decimal
show n = decimal (suc n) n

unfoldable pub show_ℤ : ℤ → String
unfolding show
show_ℤ (pos n) = show n
show_ℤ (negsuc n) = "-" ++ show (suc n)

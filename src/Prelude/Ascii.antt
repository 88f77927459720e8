-- ===== src/Prelude/Ascii.antt =====
-- Rust's `to_ascii_lowercase` and `eq_ignore_ascii_case`.
use Prim.Native.Nat.{ℕ, suc, ◌-◌}
use Prim.Native.Char.{Char, code}
use Prim.Native.String.{String, [], ◌∷◌, ◌++◌, slice}
use mathlib.Core.Bool.{Bool, ◌&&◌}
use pahoa.Prelude.Tests.{leb, if◌then◌else◌}
use pahoa.Prelude.Equality.{◌==◌, string_eq}

abbrev is_upper : Char → Bool
is_upper c = leb 65 (code c) && leb (code c) 90

abbrev lower_letter : ℕ → String
lower_letter i = slice "abcdefghijklmnopqrstuvwxyz" i (suc i)

unfoldable pub to_ascii_lowercase : String → String
to_ascii_lowercase [] = []
to_ascii_lowercase (c ∷ s) =
    let rest = to_ascii_lowercase s in
    if is_upper c then lower_letter (code c - 65) ++ rest else c ∷ rest

unfoldable pub eq_ignore_ascii_case : String → String → Bool
unfolding to_ascii_lowercase
eq_ignore_ascii_case s t = to_ascii_lowercase s == to_ascii_lowercase t

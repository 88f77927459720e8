-- ===== src/Prelude/Python.antt =====
-- crates/pahoa-room/src/conn.rs: a text as Python writes it in a list.
use Prim.Native.Nat.{ℕ, suc, ◌/◌, ◌%◌}
use Prim.Native.Char.{Char, code}
use Prim.Native.String.{String, [], ◌∷◌, ◌++◌, slice}
use mathlib.Core.Bool.{Bool, false, not, ◌&&◌, ◌||◌}
use pahoa.Prelude.Tests.{eqb, ltb, if◌then◌else◌}

unfoldable has_code : ℕ → String → Bool
has_code n [] = false
has_code n (c ∷ s) = eqb (code c) n || has_code n s

-- The code of the quotation mark: a double one for a text with a single one and no double one.
unfoldable pub quote_of : String → ℕ
unfolding has_code
quote_of s = if has_code 39 s && not (has_code 34 s) then 34 else 39

abbrev quote_text : ℕ → String
quote_text quote = if eqb quote 34 then "\"" else "'"

abbrev hex_digit : ℕ → String
hex_digit d = slice "0123456789abcdef" d (suc d)

abbrev pub escaped : ℕ → Char → String
escaped quote c =
    if eqb (code c) 92
    then "\\\\"
    else if eqb (code c) 10
    then "\\n"
    else if eqb (code c) 13
    then "\\r"
    else if eqb (code c) 9
    then "\\t"
    else if eqb (code c) quote
    then "\\" ++ (c ∷ [])
    else if ltb (code c) 32 || eqb (code c) 127
    then "\\x" ++ (hex_digit (code c / 16) ++ hex_digit (code c % 16))
    else c ∷ []

unfoldable pub escape_all : ℕ → String → String
escape_all quote [] = []
escape_all quote (c ∷ s) = escaped quote c ++ escape_all quote s

unfoldable pub python_str_repr : String → String
unfolding quote_of escape_all
python_str_repr s =
    let quote = quote_of s in quote_text quote ++ (escape_all quote s ++ quote_text quote)

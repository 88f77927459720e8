-- ===== src/Proto/Depth.antt =====
-- crates/pahoa-proto/src/depth.rs: the scan that refuses documents nested too deep, before any parser.
pub mod Balance
use pahoa.Prelude.{ℕ, suc, Bool, true, false, not, ◌&&◌, ◌||◌, List, [], ◌∷◌, eqb, if◌then◌else◌}
use pahoa.Prelude.Result.{Result, ok, err}
use pahoa.Prelude.Int.{ℤ, pos, ◌+ℤ◌, ◌-ℤ◌, ltb_ℤ, eqb_ℤ, wrap_i64}

abbrev pub max_depth : ℕ
max_depth = 16

pub data DepthError : Type 0 where
  too_deep : ℕ → DepthError
  malformed : DepthError

-- The scan's variables. A document has fewer than 2^63 - 1 bytes, so that the depth fits an `i64`.
pub record Scan : Type 0 where
  pub depth : ℤ
  pub in_quotes : Bool
  pub escape : Bool

abbrev pub opens : ℕ → Bool
opens c = eqb c 91 || eqb c 123

abbrev pub closes : ℕ → Bool
closes c = eqb c 93 || eqb c 125

-- A byte outside of a string. `limit as i64` makes a limit of 2^63 or more negative.
unfoldable pub bracket : ℕ → Scan → ℕ → Result DepthError Scan
unfolding wrap_i64
bracket limit s c =
    let deeper = s.depth +ℤ pos 1 in
    if opens c
    then if ltb_ℤ (wrap_i64 (pos limit)) deeper
      then err (too_deep limit)
      else ok (record { depth = deeper; in_quotes = s.in_quotes; escape = false })
    else if closes c
    then ok (record { depth = s.depth -ℤ pos 1; in_quotes = s.in_quotes; escape = false })
    else ok (record { depth = s.depth; in_quotes = s.in_quotes; escape = false })

-- The loop's body.
unfoldable pub step : ℕ → Scan → ℕ → Result DepthError Scan
unfolding bracket
step limit s c =
    if eqb c 92 && not s.escape
    then ok (record { depth = s.depth; in_quotes = s.in_quotes; escape = true })
    else if eqb c 34 && not s.escape
    then ok (record { depth = s.depth; in_quotes = not s.in_quotes; escape = s.escape })
    else if not s.in_quotes
    then bracket limit s c
    else ok (record { depth = s.depth; in_quotes = s.in_quotes; escape = false })

unfoldable pub scan : ℕ → Scan → List ℕ → Result DepthError Scan
unfolding step
scan limit s [] = ok s
scan limit s (c ∷ cs) = elim (step limit s c) [ err e ↦ err e | ok s' ↦ scan limit s' cs ]

abbrev pub start : Scan
start = record { depth = pos 1; in_quotes = false; escape = false }

abbrev pub balanced : Result DepthError Scan → Result DepthError (Unit {0})
balanced (err e) = err e
balanced (ok s) = if not (eqb_ℤ s.depth (pos 1)) then err malformed else ok tt

unfoldable pub check_depth : List ℕ → ℕ → Result DepthError (Unit {0})
unfolding scan
check_depth s limit = balanced (scan limit start s)

unfoldable pub check : List ℕ → Result DepthError (Unit {0})
unfolding check_depth
check s = check_depth s max_depth

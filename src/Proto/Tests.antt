-- ===== src/Proto/Tests.antt =====
-- The depth guard at a concrete document.
use pahoa.Prelude.{ℕ, ◌^◌, ◌↔◌, false, List, [], ◌∷◌, ◌≡◌, refl, arith}
use pahoa.Prelude.Result.{ok, err}
use pahoa.Prelude.Int.{pos, ◌+ℤ◌, ◌-ℤ◌}
use pahoa.Proto.Depth.{check_depth, too_deep, malformed}
use pahoa.Proto.Depth.Balance.{brackets, IsBalanced, check_depth-IsBalanced}

-- [{"[":"]]"}]
abbrev document : List ℕ
document = 91 ∷ 123 ∷ 34 ∷ 91 ∷ 34 ∷ 58 ∷ 34 ∷ 93 ∷ 93 ∷ 34 ∷ 125 ∷ 93 ∷ []

check_depth-IsBalanced_example :
    (check_depth document 3 ≡ ok tt) ↔ IsBalanced 3 (pos 1) (brackets false false document)
check_depth-IsBalanced_example = check_depth-IsBalanced document 3 (omega arith) (omega arith)

document_accepted : check_depth document 3 ≡ ok tt
unfolding check_depth ◌+ℤ◌ ◌-ℤ◌
document_accepted = refl

document_too_deep : check_depth document 2 ≡ err (too_deep 2)
unfolding check_depth ◌+ℤ◌ ◌-ℤ◌
document_too_deep = refl

-- ]][[
closed_first : check_depth (93 ∷ 93 ∷ 91 ∷ 91 ∷ []) 3 ≡ ok tt
unfolding check_depth ◌+ℤ◌ ◌-ℤ◌
closed_first = refl

unclosed : check_depth (91 ∷ []) 3 ≡ err malformed
unfolding check_depth ◌+ℤ◌ ◌-ℤ◌
unclosed = refl

-- A limit of 2^63 is negative as an `i64`.
limit_wraps : check_depth (91 ∷ 93 ∷ []) (2 ^ 63) ≡ err (too_deep (2 ^ 63))
unfolding check_depth ◌+ℤ◌ ◌-ℤ◌
limit_wraps = refl

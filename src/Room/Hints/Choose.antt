-- ===== src/Room/Hints/Choose.antt =====
-- crates/pahoa-room/src/hints.rs: which of the candidates are granted.
pub mod Earliest
pub mod Granted
use pahoa.Prelude.{ℕ, zero, suc, Bool, Option, none, some, List, [], ◌∷◌, leb, not, if◌then◌else◌}
use pahoa.Prelude.Int.{ℤ}
use pahoa.Prelude.Equality.{◌==◌, nat_eq}
use pahoa.Prelude.Sorting.{sort_by}
use pahoa.Multidata.Types.{Hint}
use pahoa.Random.Twister.{Mt19937}
use pahoa.Random.Draws.{shuffle}

module _ {ℓ} {A : Type ℓ} where
  abbrev pub pop_behind : A → Option (A × List A) → Option (A × List A)
  pop_behind x none = some (x, [])
  pop_behind x (some (last, rest)) = some (last, x ∷ rest)

  -- `Vec::pop`, with what is left.
  unfoldable pub pop : List A → Option (A × List A)
  pop [] = none
  pop (x ∷ xs) = pop_behind x (pop xs)

  -- A round of the loop, with what is done with the rest.
  abbrev pub take_popped :
      List A → (List A → List A × List A) → Option (A × List A) → List A × List A
  take_popped xs f none = ([], xs)
  take_popped xs f (some (last, rest)) =
      let (granted, remaining) = f rest in (last ∷ granted, remaining)

  -- The loop on the budget, which ends at an empty list.
  unfoldable pub take_last : ℕ → List A → List A × List A
  unfolding pop
  take_last zero xs = ([], xs)
  take_last (suc budget) xs = take_popped xs (take_last budget) (pop xs)

-- `u8::from`, of whether the item is for another slot.
abbrev pub remote : Hint → ℕ
remote h = if not (h.receiving_player == h.finding_player) then 1 else 0

abbrev pub local_leb : Hint → Hint → Bool
local_leb a b = leb (remote a) (remote b)

abbrev pub sphere_at : (ℕ → ℤ → ℕ) → Hint → ℕ
sphere_at sphere_of h = sphere_of h.finding_player h.location

abbrev pub later_leb : (ℕ → ℤ → ℕ) → Hint → Hint → Bool
later_leb sphere_of a b = leb (sphere_at sphere_of b) (sphere_at sphere_of a)

-- What is done with the candidates once they are shuffled.
unfoldable pub grant : (ℕ → ℤ → ℕ) → ℕ → List Hint → List Hint × List Hint
unfolding sort_by take_last
grant sphere_of budget candidates =
    take_last budget (sort_by (later_leb sphere_of) (sort_by local_leb candidates))

-- `none` where the shuffle has not ended within its fuel.
unfoldable pub choose :
    ℕ → Mt19937 → List Hint → (ℕ → ℤ → ℕ) → ℕ → Option ((List Hint × List Hint) × Mt19937)
unfolding shuffle grant
choose fuel rng candidates sphere_of budget = elim (shuffle fuel candidates rng) [
  | none ↦ none
  | some (shuffled, rng') ↦ some (grant sphere_of budget shuffled, rng')
]

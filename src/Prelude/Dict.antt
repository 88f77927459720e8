-- ===== src/Prelude/Dict.antt =====
-- A hash map as an association list. An entry that is written anew keeps its place.
use mathlib.Core.Path.{◌≡◌, refl}
use mathlib.Core.Option.{Option, none, some}
use mathlib.Core.List.{List, [], ◌∷◌}
use native.Mathlib.Omega.{arith}
use pahoa.Prelude.Tests.{if◌then◌else◌, is_none}
use mathlib.Core.Bool.{true}
use pahoa.Prelude.Equality.{Eq, ◌==◌}

abbrev pub Dict {ℓ κ} : Type ℓ → Type κ → Type (ℓ ⊔ κ)
Dict K V = List (K × V)

module _ {ℓ κ} {K : Type ℓ} {V : Type κ} ⦃e : Eq K⦄ where
  unfoldable pub lookup : K → Dict K V → Option V
  lookup k [] = none
  lookup k ((j, v) ∷ d) = if j == k then some v else lookup k d

  unfoldable pub insert : K → V → Dict K V → Dict K V
  insert k v [] = (k, v) ∷ []
  insert k v ((j, w) ∷ d) = if j == k then (k, v) ∷ d else (j, w) ∷ insert k v d

  -- `map.get(&k).unwrap_or_default()`
  abbrev pub get_or : Dict K V → K → V → V
  get_or d k v = elim (lookup k d) [ some w ↦ w | none ↦ v ]

  -- The entries of other keys.
  unfoldable pub erase : K → Dict K V → Dict K V
  erase k [] = []
  erase k ((j, v) ∷ d) = let rest = erase k d in if j == k then rest else (j, v) ∷ rest

  pub lookup-erase :
      (j k : K) (d : Dict K V) → lookup j (erase k d) ≡ (if k == j then none else lookup j d)
  unfolding lookup erase
  lookup-erase j k [] = ground arith
  lookup-erase j k ((i, v) ∷ d) =
      ground (arith, e.beq_iff k j, e.beq_iff i k, e.beq_iff i j, lookup-erase j k d)

  pub lookup-insert :
      (j k : K) (v : V) (d : Dict K V)
      → lookup j (insert k v d) ≡ (if k == j then some v else lookup j d)
  unfolding lookup insert
  lookup-insert j k v [] = refl
  lookup-insert j k v ((i, w) ∷ d) =
      ground (arith, e.beq_iff k j, e.beq_iff i k, e.beq_iff i j, lookup-insert j k v d)

  pub get_or-insert :
      (j k : K) (v w : V) (d : Dict K V)
      → get_or (insert k v d) j w ≡ (if k == j then v else get_or d j w)
  get_or-insert j k v w d = ground (arith, lookup-insert j k v d)

  -- Each key has one entry.
  unfoldable pub IsMap : Dict K V → Type 0
  IsMap [] = Unit
  IsMap ((k, v) ∷ d) = (is_none (lookup k d) ≡ true) × IsMap d

  pub insert-IsMap : (k : K) (v : V) (d : Dict K V) → IsMap d → IsMap (insert k v d)
  unfolding lookup insert IsMap
  insert-IsMap k v [] m = (refl, tt)
  insert-IsMap k v ((j, w) ∷ d) m =
      ground (arith, e.beq_iff j k, e.beq_iff k j, lookup-insert j k v d, insert-IsMap k v d m.1)

  -- Writing what is there changes nothing.
  pub insert-lookup : (k : K) (v : V) (d : Dict K V) → lookup k d ≡ some v → insert k v d ≡ d
  unfolding lookup insert
  insert-lookup k v [] h = absurd (ground arith)
  insert-lookup k v ((j, w) ∷ d) h = ground (arith, e.beq_iff j k, insert-lookup k v d)

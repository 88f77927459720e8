-- ===== src/Multidata/Locations/Unique.antt =====
-- crates/pahoa-multidata/src/locations.rs: lookups in a store that `validate` accepts.
use pahoa.Prelude.{
  ℕ, zero, suc, ◌+◌, ◌^◌, ◌≤◌, ◌<◌, Bool, true, false, Option, none, some, List, [], ◌∷◌, length,
  get_elem?, All, eqb, eqb_iff, ◌≡◌, refl, ap, sym, subst, ◌∙◌, arith, if_both, Bool-cases, inl,
  inr, replicate, length-replicate, if◌then◌else◌,
}
use pahoa.Prelude.Result.{Result, ok, err}
use pahoa.Prelude.Int.{ℤ, eqb_ℤ, eqb_ℤ_iff}
use pahoa.Multidata.Locations.{
  LocationEntry, LocationStore, LocationsError, duplicate_location, sort_entries, from_entries,
  for_slot, get, first_repeat, check_slots, validate, max_slot, binary_search, search_base,
  declared,
}
use pahoa.Multidata.Locations.Grouped.{of_sender}
use pahoa.Multidata.Locations.Runs.{length-index_runs}
use pahoa.Multidata.Locations.Slots.{sort_entries-All, All-sort_entries, for_slot-of_sender}
use pahoa.Multidata.Locations.Ascending.{
  sort_entries-IsSorted, of_sender-IsLevel, first_repeat-IsAscending, find_location-IsAscending,
}
use pahoa.Multidata.Locations.Lookup.{
  matching, matching-elim, IsAscending, find_location, binary_search-find_location,
}

if-cons :
    (P : LocationEntry → Type 0) (c : Bool) (e : LocationEntry) (es : List LocationEntry)
    → All P (if c then e ∷ es else es)
    → (c ≡ true → P e) × All P es
if-cons P true e es a = ((λ h. a.0), a.1)
if-cons P false e es a = ((λ h. absurd (ground arith)), a)

-- What holds of the entries of each slot that owns any holds of all entries.
All-of_sender :
    (P : ℕ → LocationEntry → Type 0) (Q : ℕ → Type 0) (es : List LocationEntry)
    → ((slot : ℕ) → Q slot → All (P slot) (of_sender slot es))
    → All (λ (e : LocationEntry). Q e.sender) es
    → All (λ (e : LocationEntry). P e.sender e) es
unfolding of_sender
All-of_sender P Q [] h q = tt
All-of_sender P Q (e ∷ es) h q = (
  (if-cons (P e.sender) (eqb e.sender e.sender) e (of_sender e.sender es) (h e.sender q.0)).0
      ((eqb_iff e.sender e.sender).1 refl),
  All-of_sender P Q es
      (λ slot r. (if-cons (P slot) (eqb e.sender slot) e (of_sender slot es) (h slot r)).1) q.1,
)

check_slots-cons :
    (slot : ℕ) (o : Option ℤ) (rest : Result LocationsError (Unit {0}))
    → (elim o [ none ↦ rest | some location ↦ err (duplicate_location slot location) ]) ≡ ok tt
    → (o ≡ none) × (rest ≡ ok tt)
check_slots-cons slot none rest h = (refl, h)
check_slots-cons slot (some l) rest h = absurd (ground arith)

check_slots-first_repeat :
    (store : LocationStore) (n slot s : ℕ)
    → check_slots store n slot ≡ ok tt
    → slot ≤ s
    → s < slot + n
    → first_repeat (for_slot store s) ≡ none
unfolding check_slots
check_slots-first_repeat store zero slot s h l u = absurd (omega arith)
check_slots-first_repeat store (suc n) slot s h l u =
    let (first, later) =
      check_slots-cons slot (first_repeat (for_slot store slot)) (check_slots store n (suc slot))
        h in
    elim (Bool-cases (eqb slot s)) [
      | inl e ↦ ap (λ k. first_repeat (for_slot store k)) (sym ((eqb_iff slot s).0 e)) ∙ first
      | inr e ↦ check_slots-first_repeat store n (suc slot) s later (ground arith) (ground arith)
    ]

validate-check_slots :
    (store : LocationStore) → validate store ≡ ok tt → check_slots store (max_slot store) 1 ≡ ok tt
unfolding validate
validate-check_slots store h = ground arith

max_slot-declared :
    (es : List LocationEntry) (highest slots : ℕ) → max_slot (declared es highest slots) ≡ highest
unfolding max_slot from_entries
max_slot-declared es highest slots = omega (
  arith,
  length-index_runs (length (sort_entries es)) 0 (sort_entries es)
      (replicate {A = ℕ × ℕ} (highest + 1) (0, 0)) 0,
  length-replicate {A = ℕ × ℕ} (highest + 1) (0, 0),
)

All-found :
    (look : ℤ → Option LocationEntry) (xs fs : List LocationEntry)
    → ((location : ℤ) → look location ≡ find_location location xs)
    → All (λ (f : LocationEntry). find_location f.location xs ≡ some f) fs
    → All (λ (f : LocationEntry). look f.location ≡ some f) fs
All-found look xs [] h a = tt
All-found look xs (f ∷ fs) h a = (h f.location ∙ a.0, All-found look xs fs h a.1)

at_most :
    (highest : ℕ) (es : List LocationEntry)
    → All (λ (e : LocationEntry). (1 ≤ e.sender) × (e.sender ≤ highest)) es
    → All (λ (e : LocationEntry). e.sender ≤ highest) es
at_most highest [] a = tt
at_most highest (e ∷ es) a = (a.0.1, at_most highest es a.1)

pub for_slot-declared :
    (es : List LocationEntry) (highest slots slot : ℕ)
    → All (λ (e : LocationEntry). (1 ≤ e.sender) × (e.sender ≤ highest)) es
    → length es < 2 ^ 32
    → for_slot (declared es highest slots) slot ≡ of_sender slot (sort_entries es)
unfolding for_slot
for_slot-declared es highest slots slot a h =
    for_slot-of_sender es highest slot (at_most highest es a) h

declared-IsAscending :
    (es : List LocationEntry) (highest slots slot : ℕ)
    → All (λ (e : LocationEntry). (1 ≤ e.sender) × (e.sender ≤ highest)) es
    → length es < 2 ^ 32
    → validate (declared es highest slots) ≡ ok tt
    → (1 ≤ slot) × (slot ≤ highest)
    → IsAscending (of_sender slot (sort_entries es))
declared-IsAscending es highest slots slot a h v q =
    first_repeat-IsAscending (of_sender slot (sort_entries es))
      (of_sender-IsLevel slot (sort_entries es) (sort_entries-IsSorted es))
      (ap first_repeat (sym (for_slot-declared es highest slots slot a h))
        ∙ check_slots-first_repeat (declared es highest slots)
            (max_slot (declared es highest slots)) 1 slot
            (validate-check_slots (declared es highest slots) v) q.0
            (omega (arith, max_slot-declared es highest slots)))

get-find_location :
    (es : List LocationEntry) (highest slots slot : ℕ)
    → All (λ (e : LocationEntry). (1 ≤ e.sender) × (e.sender ≤ highest)) es
    → length es < 2 ^ 32
    → validate (declared es highest slots) ≡ ok tt
    → (1 ≤ slot) × (slot ≤ highest)
    → (location : ℤ)
    → get (declared es highest slots) slot location
      ≡ find_location location (of_sender slot (sort_entries es))
unfolding get
get-find_location es highest slots slot a h v q location =
    ap (λ xs. binary_search xs location) (for_slot-declared es highest slots slot a h)
    ∙ binary_search-find_location (of_sender slot (sort_entries es)) location
        (declared-IsAscending es highest slots slot a h v q)

-- In a store that `validate` accepts, built of fewer than 2^32 entries with senders from one to the
-- highest slot, every entry is what a lookup of its sender and location finds.
pub get-declared :
    (es : List LocationEntry) (highest slots : ℕ)
    → All (λ (e : LocationEntry). (1 ≤ e.sender) × (e.sender ≤ highest)) es
    → length es < 2 ^ 32
    → validate (declared es highest slots) ≡ ok tt
    → All (λ (e : LocationEntry). get (declared es highest slots) e.sender e.location ≡ some e) es
get-declared es highest slots a h v =
    All-sort_entries
      (λ (e : LocationEntry). get (declared es highest slots) e.sender e.location ≡ some e) es
      (All-of_sender
        (λ slot (e : LocationEntry). get (declared es highest slots) slot e.location ≡ some e)
        (λ slot. (1 ≤ slot) × (slot ≤ highest)) (sort_entries es)
        (λ slot q.
          All-found (get (declared es highest slots) slot) (of_sender slot (sort_entries es))
            (of_sender slot (sort_entries es)) (get-find_location es highest slots slot a h v q)
            (find_location-IsAscending (of_sender slot (sort_entries es))
              (declared-IsAscending es highest slots slot a h v q)))
        (sort_entries-All (λ (e : LocationEntry). (1 ≤ e.sender) × (e.sender ≤ highest)) es a))

abbrev From : (LocationEntry → Type 0) → ℕ → ℤ → Option LocationEntry → Type 0
From P slot location none = Unit
From P slot location (some e) = (e.sender ≡ slot) × ((e.location ≡ location) × P e)

pub of_sender-All :
    (P : LocationEntry → Type 0) (slot : ℕ) (es : List LocationEntry)
    → All P es
    → All (λ (e : LocationEntry). (e.sender ≡ slot) × P e) (of_sender slot es)
unfolding of_sender
of_sender-All P slot [] a = tt
of_sender-All P slot (e ∷ es) a =
    if_both (All (λ (e : LocationEntry). (e.sender ≡ slot) × P e)) (eqb e.sender slot)
      (λ c. (((eqb_iff e.sender slot).0 c, a.0), of_sender-All P slot es a.1))
      (λ c. of_sender-All P slot es a.1)

matching-From :
    (P : LocationEntry → Type 0) (slot i : ℕ) (location : ℤ) (es : List LocationEntry)
    → All (λ (e : LocationEntry). (e.sender ≡ slot) × P e) es
    → From P slot location (matching location (get_elem? es i))
matching-From P slot i location [] a = tt
matching-From P slot zero location (e ∷ es) a =
    if_both (From P slot location) (eqb_ℤ e.location location)
      (λ c. (a.0.0, ((eqb_ℤ_iff e.location location).0 c, a.0.1))) (λ c. tt)
matching-From P slot (suc i) location (e ∷ es) a = matching-From P slot i location es a.1

-- In a store of fewer than 2^32 entries with senders from one to the highest slot, what a lookup of a
-- slot and a location finds has that sender and location, and what holds of all entries holds of it.
pub get_sound :
    (P : LocationEntry → Type 0) (es : List LocationEntry) (highest slots slot : ℕ) (location : ℤ)
    (e : LocationEntry)
    → All (λ (e : LocationEntry). (1 ≤ e.sender) × (e.sender ≤ highest)) es
    → length es < 2 ^ 32
    → All P es
    → get (declared es highest slots) slot location ≡ some e
    → (e.sender ≡ slot) × ((e.location ≡ location) × P e)
unfolding get binary_search
get_sound P es highest slots slot location e a h p g =
    let xs : List LocationEntry = for_slot (declared es highest slots) slot in
    let i : ℕ = search_base (length xs) xs location 0 (length xs) in
    let all : All (λ (e : LocationEntry). (e.sender ≡ slot) × P e) xs =
      rw (for_slot-declared es highest slots slot a h)
        (of_sender-All P slot (sort_entries es) (sort_entries-All P es p)) in
    subst (From P slot location) (sym (matching-elim location (get_elem? xs i)) ∙ g)
      (matching-From P slot i location xs all)

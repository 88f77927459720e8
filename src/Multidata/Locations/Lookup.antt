-- ===== src/Multidata/Locations/Lookup.antt =====
-- crates/pahoa-multidata/src/locations.rs: the binary search in one slot's entries, against a scan.
use pahoa.Prelude.{
  ℕ, zero, suc, ◌+◌, ◌-◌, ◌/◌, ◌≤◌, true, false, Option, none, some, List, [], ◌∷◌, length,
  get_elem?, All, ltb, leb, ◌≡◌, inl, inr, refl, ap, sym, ◌∙◌, arith, Bool-cases, ltb→lt, if_both,
  if◌then◌else◌,
}
use pahoa.Prelude.Int.{ℤ, ◌<ℤ◌, ltb_ℤ, eqb_ℤ, eqb_ℤ_iff}
use pahoa.Multidata.Locations.{LocationEntry, reaches, search_base, binary_search}

-- Every entry's location is below those of all entries behind it.
unfoldable pub IsAscending : List LocationEntry → Type 0
IsAscending [] = Unit
IsAscending (e ∷ es) = All (λ (f : LocationEntry). e.location <ℤ f.location) es × IsAscending es

-- The first entry of a location, by a scan.
unfoldable pub find_location : ℤ → List LocationEntry → Option LocationEntry
find_location location [] = none
find_location location (e ∷ es) =
    if eqb_ℤ e.location location then some e else find_location location es

-- How many entries at the front are not above a location.
unfoldable rank : ℤ → List LocationEntry → ℕ
rank location [] = 0
rank location (e ∷ es) = if ltb_ℤ location e.location then 0 else suc (rank location es)

rank-length : (location : ℤ) (es : List LocationEntry) → rank location es ≤ length es
unfolding rank
rank-length location [] = omega arith
rank-length location (e ∷ es) = ground (arith, rank-length location es)

-- Behind an entry that is above a location, every entry is.
above-reaches :
    (location : ℤ) (e : LocationEntry) (es : List LocationEntry) (i : ℕ)
    → location <ℤ e.location
    → All (λ (f : LocationEntry). e.location <ℤ f.location) es
    → reaches location (get_elem? es i) ≡ false
above-reaches location e [] i h a = refl
above-reaches location e (f ∷ es) zero h a = ground arith
above-reaches location e (f ∷ es) (suc i) h a = above-reaches location e es i h a.1

reaches-rank :
    (location : ℤ) (es : List LocationEntry) (i : ℕ)
    → IsAscending es
    → reaches location (get_elem? es i) ≡ ltb i (rank location es)
unfolding rank IsAscending
reaches-rank location [] i a = ground arith
reaches-rank location (e ∷ es) zero a = ground arith
reaches-rank location (e ∷ es) (suc i) a =
    ground (arith, above-reaches location e es i, reaches-rank location es i a.1)

-- The search ends at the last entry that is not above the location, or at the front.
search_base-rank :
    (fuel : ℕ) (es : List LocationEntry) (location : ℤ) (base size : ℕ)
    → IsAscending es
    → size ≤ suc fuel
    → base ≤ rank location es - 1
    → rank location es ≤ base + size
    → search_base fuel es location base size ≡ rank location es - 1
unfolding search_base
search_base-rank zero es location base size a hs hb hr = omega arith
search_base-rank (suc fuel) es location base size a hs hb hr =
    if_both (λ b. b ≡ rank location es - 1) (leb size 1) (λ e. ground arith)
      (λ e.
        rw (reaches-rank location es (base + size / 2) a)
          (elim (Bool-cases (ltb (base + size / 2) (rank location es))) [
            | inl r ↦ rw (r) (
                search_base-rank fuel es location (base + size / 2) (size - size / 2) a
                  (ground arith) (ground arith) (ground arith))
            | inr r ↦ rw (r) (
                search_base-rank fuel es location base (size - size / 2) a (ground arith)
                  (ground arith) (ground arith))
          ]))

above-find_location :
    (location : ℤ) (e : LocationEntry) (es : List LocationEntry)
    → location <ℤ e.location
    → All (λ (f : LocationEntry). e.location <ℤ f.location) es
    → find_location location es ≡ none
unfolding find_location
above-find_location location e [] h a = refl
above-find_location location e (f ∷ es) h a =
    ground (arith, eqb_ℤ_iff f.location location, above-find_location location e es h a.1)

abbrev pub matching : ℤ → Option LocationEntry → Option LocationEntry
matching location none = none
matching location (some e) = if eqb_ℤ e.location location then some e else none

rank-zero :
    (location : ℤ) (es : List LocationEntry)
    → IsAscending es
    → rank location es ≡ 0
    → find_location location es ≡ none
unfolding rank find_location IsAscending
rank-zero location [] a h = refl
rank-zero location (e ∷ es) a h =
    ground (arith, eqb_ℤ_iff e.location location, above-find_location location e es)

rank-suc :
    (location : ℤ) (e : LocationEntry) (es : List LocationEntry) (k : ℕ)
    → All (λ (f : LocationEntry). e.location <ℤ f.location) es
    → rank location es ≡ suc k
    → eqb_ℤ e.location location ≡ false
unfolding rank
rank-suc location e [] k a h = ground arith
rank-suc location e (f ∷ es) k a h = ground (arith, eqb_ℤ_iff e.location location)

suc-pred : (n : ℕ) → suc n - 1 ≡ n
suc-pred n = omega arith

-- The entry at the rank of the entries behind one, where that one is not above the location.
matching-step :
    (location : ℤ) (e : LocationEntry) (es : List LocationEntry) (r : ℕ)
    → IsAscending (e ∷ es)
    → rank location es ≡ r
    → matching location (get_elem? es (r - 1)) ≡ find_location location es
    → matching location (get_elem? (e ∷ es) (suc r - 1))
      ≡ (if eqb_ℤ e.location location then some e else find_location location es)
unfolding IsAscending
matching-step location e es zero a h ih = rw (rank-zero location es a.1 h)
matching-step location e es (suc k) a h ih =
    rw (rank-suc location e es k a.0 h, suc-pred (suc k))
      (sym (ap (λ i. matching location (get_elem? es i)) (suc-pred k)) ∙ ih)

above-eqb : (a b : ℤ) → ltb_ℤ a b ≡ true → eqb_ℤ b a ≡ false
above-eqb a b h = ground (arith, eqb_ℤ_iff b a)

matching-rank :
    (location : ℤ) (es : List LocationEntry)
    → IsAscending es
    → matching location (get_elem? es (rank location es - 1)) ≡ find_location location es
unfolding rank find_location IsAscending
matching-rank location [] a = refl
matching-rank location (e ∷ es) a = elim (Bool-cases (ltb_ℤ location e.location)) [
  | inl h ↦ rw (h, above-find_location location e es (ltb→lt _ _ h) a.0)
  | inr h ↦
      rw (h) (matching-step location e es (rank location es) a refl (matching-rank location es a.1))
]

pub matching-elim :
    (location : ℤ) (o : Option LocationEntry)
    → (elim o [ none ↦ none | some e ↦ if eqb_ℤ e.location location then some e else none ])
      ≡ matching location o
matching-elim location none = refl
matching-elim location (some e) = refl

-- On ascending entries the binary search finds what a scan finds.
pub binary_search-find_location :
    (es : List LocationEntry) (location : ℤ)
    → IsAscending es
    → binary_search es location ≡ find_location location es
unfolding binary_search
binary_search-find_location es location a =
    matching-elim location (get_elem? es (search_base (length es) es location 0 (length es)))
    ∙ ap (λ i. matching location (get_elem? es i))
        (search_base-rank (length es) es location 0 (length es) a (omega arith) (omega arith)
          (omega (arith, rank-length location es)))
    ∙ matching-rank location es a

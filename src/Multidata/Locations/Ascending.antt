-- ===== src/Multidata/Locations/Ascending.antt =====
-- crates/pahoa-multidata/src/locations.rs: sorted entries, and the locations of one sender among them.
use pahoa.Prelude.{
  ℕ, Bool, true, false, Option, none, some, List, [], ◌∷◌, All, eqb, eqb_iff, ◌≡◌, refl, arith,
  if_both, if◌then◌else◌,
}
use pahoa.Prelude.Int.{◌<ℤ◌, ◌≤ℤ◌, eqb_ℤ, eqb_ℤ_iff}
use pahoa.Multidata.Locations.{LocationEntry, key_leb, insert_entry, sort_entries, first_repeat}
use pahoa.Multidata.Locations.Grouped.{of_sender, insert_entry-All}
use pahoa.Multidata.Locations.Lookup.{IsAscending, find_location}

-- Every entry is before all entries behind it, or level with them.
unfoldable pub IsSorted : List LocationEntry → Type 0
IsSorted [] = Unit
IsSorted (e ∷ es) = All (λ (f : LocationEntry). key_leb e f ≡ true) es × IsSorted es

key_leb_trans :
    (e f : LocationEntry) (es : List LocationEntry)
    → key_leb e f ≡ true
    → All (λ (x : LocationEntry). key_leb f x ≡ true) es
    → All (λ (x : LocationEntry). key_leb e x ≡ true) es
key_leb_trans e f [] h a = tt
key_leb_trans e f (x ∷ xs) h a = let q = a.0 in (ground arith, key_leb_trans e f xs h a.1)

key_leb-total : (e f : LocationEntry) → key_leb e f ≡ false → key_leb f e ≡ true
key_leb-total e f h = ground arith

insert_entry-IsSorted :
    (e : LocationEntry) (es : List LocationEntry) → IsSorted es → IsSorted (insert_entry e es)
unfolding insert_entry IsSorted
insert_entry-IsSorted e [] s = (tt, tt)
insert_entry-IsSorted e (f ∷ fs) s =
    if_both IsSorted (key_leb e f) (λ c. ((c, key_leb_trans e f fs c s.0), s))
      (λ c. (
        insert_entry-All (λ (x : LocationEntry). key_leb f x ≡ true) e fs (key_leb-total e f c) s.0,
        insert_entry-IsSorted e fs s.1,
      ))

pub sort_entries-IsSorted : (es : List LocationEntry) → IsSorted (sort_entries es)
unfolding sort_entries IsSorted
sort_entries-IsSorted [] = tt
sort_entries-IsSorted (e ∷ es) =
    insert_entry-IsSorted e (sort_entries es) (sort_entries-IsSorted es)

-- One sender's entries in sorted order do not go down, and without a repeat they go up.
of_sender-above :
    (slot : ℕ) (e : LocationEntry) (es : List LocationEntry)
    → e.sender ≡ slot
    → All (λ (f : LocationEntry). key_leb e f ≡ true) es
    → All (λ (f : LocationEntry). e.location ≤ℤ f.location) (of_sender slot es)
unfolding of_sender
of_sender-above slot e [] h a = tt
of_sender-above slot e (f ∷ es) h a =
    if_both (All (λ (f : LocationEntry). e.location ≤ℤ f.location)) (eqb f.sender slot)
      (λ c. (let q = a.0 in ground arith, of_sender-above slot e es h a.1))
      (λ c. of_sender-above slot e es h a.1)

abbrev pub IsLevel : List LocationEntry → Type 0
IsLevel [] = Unit
IsLevel (e ∷ es) = All (λ (f : LocationEntry). e.location ≤ℤ f.location) es × IsLevel es

pub of_sender-IsLevel :
    (slot : ℕ) (es : List LocationEntry) → IsSorted es → IsLevel (of_sender slot es)
unfolding of_sender IsSorted
of_sender-IsLevel slot [] s = tt
of_sender-IsLevel slot (e ∷ es) s =
    if_both IsLevel (eqb e.sender slot)
      (λ c. (
        of_sender-above slot e es ((eqb_iff e.sender slot).0 c) s.0,
        of_sender-IsLevel slot es s.1,
      ))
      (λ c. of_sender-IsLevel slot es s.1)

lift :
    (a b : LocationEntry) (es : List LocationEntry)
    → a.location <ℤ b.location
    → All (λ (f : LocationEntry). b.location ≤ℤ f.location) es
    → All (λ (f : LocationEntry). a.location <ℤ f.location) es
lift a b [] h l = tt
lift a b (x ∷ xs) h l = (omega arith, lift a b xs h l.1)

none-if :
    {A : Type 0} (c : Bool) (x : A) (o : Option A)
    → (if c then some x else o) ≡ none
    → (c ≡ false) × (o ≡ none)
none-if true x o h = absurd (ground arith)
none-if false x o h = (refl, h)

pub first_repeat-IsAscending :
    (es : List LocationEntry) → IsLevel es → first_repeat es ≡ none → IsAscending es
unfolding first_repeat IsAscending
first_repeat-IsAscending [] l h = tt
first_repeat-IsAscending (a ∷ []) l h = (tt, tt)
first_repeat-IsAscending (a ∷ b ∷ es) l h =
    let (c, r) = none-if (eqb_ℤ a.location b.location) a.location (first_repeat (b ∷ es)) h in
    let q = l.0.0 in
    let up : a.location <ℤ b.location = ground (arith, eqb_ℤ_iff a.location b.location) in
    ((up, lift a b es up l.1.0), first_repeat-IsAscending (b ∷ es) l.1 r)

behind :
    (e : LocationEntry) (es fs : List LocationEntry)
    → All (λ (f : LocationEntry). e.location <ℤ f.location) fs
    → All (λ (f : LocationEntry). find_location f.location es ≡ some f) fs
    → All (λ (f : LocationEntry). find_location f.location (e ∷ es) ≡ some f) fs
unfolding find_location
behind e es [] a h = tt
behind e es (f ∷ fs) a h =
    let q = a.0 in (ground (arith, eqb_ℤ_iff e.location f.location, h.0), behind e es fs a.1 h.1)

pub find_location-IsAscending :
    (es : List LocationEntry)
    → IsAscending es
    → All (λ (f : LocationEntry). find_location f.location es ≡ some f) es
unfolding IsAscending find_location
find_location-IsAscending [] a = tt
find_location-IsAscending (e ∷ es) a = (
  rw ((eqb_ℤ_iff e.location e.location).1 refl),
  behind e es es a.0 (find_location-IsAscending es a.1),
)

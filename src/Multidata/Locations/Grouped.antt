-- ===== src/Multidata/Locations/Grouped.antt =====
-- crates/pahoa-multidata/src/locations.rs: runs of one sender in entries that are grouped by sender.
use pahoa.Prelude.{
  ℕ, zero, suc, ◌≤◌, List, [], ◌∷◌, length, take, drop, All, eqb, ◌≡◌, refl, arith, if_both,
  Bool-cases, inl, inr, if◌then◌else◌,
}
use pahoa.Multidata.Locations.{LocationEntry, key_leb, insert_entry, sort_entries, run_length}

-- The entries of one sender, in order.
unfoldable pub of_sender : ℕ → List LocationEntry → List LocationEntry
of_sender sender [] = []
of_sender sender (e ∷ es) =
    let rest = of_sender sender es in if eqb e.sender sender then e ∷ rest else rest

-- No entry has a sender below one before it.
unfoldable pub IsGrouped : List LocationEntry → Type 0
IsGrouped [] = Unit
IsGrouped (e ∷ es) = All (λ (f : LocationEntry). e.sender ≤ f.sender) es × IsGrouped es

pub insert_entry-All :
    (P : LocationEntry → Type 0) (e : LocationEntry) (es : List LocationEntry)
    → P e
    → All P es
    → All P (insert_entry e es)
unfolding insert_entry
insert_entry-All P e [] h a = (h, tt)
insert_entry-All P e (f ∷ fs) h a =
    if_both (All P) (key_leb e f) (λ c. (h, a)) (λ c. (a.0, insert_entry-All P e fs h a.1))

insert_entry-IsGrouped :
    (e : LocationEntry) (es : List LocationEntry) → IsGrouped es → IsGrouped (insert_entry e es)
unfolding insert_entry IsGrouped
insert_entry-IsGrouped e [] g = (tt, tt)
insert_entry-IsGrouped e (f ∷ fs) g =
    if_both IsGrouped (key_leb e f) (λ c. ((ground arith, All-weaken e f fs (ground arith) g.0), g))
      (λ c. (
        insert_entry-All (λ (x : LocationEntry). f.sender ≤ x.sender) e fs (ground arith) g.0,
        insert_entry-IsGrouped e fs g.1,
      ))
  where
    All-weaken :
        (e f : LocationEntry) (fs : List LocationEntry)
        → e.sender ≤ f.sender
        → All (λ (x : LocationEntry). f.sender ≤ x.sender) fs
        → All (λ (x : LocationEntry). e.sender ≤ x.sender) fs
    All-weaken e f [] h a = tt
    All-weaken e f (x ∷ fs) h a = (omega arith, All-weaken e f fs h a.1)

pub sort_entries-IsGrouped : (es : List LocationEntry) → IsGrouped (sort_entries es)
unfolding sort_entries IsGrouped
sort_entries-IsGrouped [] = tt
sort_entries-IsGrouped (e ∷ es) =
    insert_entry-IsGrouped e (sort_entries es) (sort_entries-IsGrouped es)

above-of_sender :
    (s : ℕ) (es : List LocationEntry)
    → All (λ (f : LocationEntry). suc s ≤ f.sender) es
    → of_sender s es ≡ []
unfolding of_sender
above-of_sender s [] a = refl
above-of_sender s (e ∷ es) a = ground (arith, above-of_sender s es a.1)

weaken :
    (m n : ℕ) (es : List LocationEntry)
    → m ≤ n
    → All (λ (f : LocationEntry). n ≤ f.sender) es
    → All (λ (f : LocationEntry). m ≤ f.sender) es
weaken m n [] h a = tt
weaken m n (e ∷ es) h a = (omega arith, weaken m n es h a.1)

-- Behind the run of the lowest sender stand none of its entries.
pub drop-run_length :
    (s : ℕ) (es : List LocationEntry)
    → IsGrouped es
    → All (λ (f : LocationEntry). s ≤ f.sender) es
    → of_sender s (drop (run_length s es) es) ≡ []
unfolding run_length IsGrouped of_sender
drop-run_length s [] g a = refl
drop-run_length s (e ∷ es) g a = elim (Bool-cases (eqb e.sender s)) [
  | inl h ↦ rw (h) (drop-run_length s es g.1 a.1)
  | inr h ↦
      rw (h)
        (above-of_sender s (e ∷ es) (ground arith, weaken (suc s) e.sender es (ground arith) g.0))
]

-- The run of the lowest sender holds all of its entries and no others.
pub of_sender-run_length :
    (s slot : ℕ) (es : List LocationEntry)
    → IsGrouped es
    → All (λ (f : LocationEntry). s ≤ f.sender) es
    → of_sender slot es ≡ (
        if eqb s slot
        then take (run_length s es) es
        else of_sender slot (drop (run_length s es) es))
unfolding run_length IsGrouped of_sender
of_sender-run_length s slot [] g a = ground arith
of_sender-run_length s slot (e ∷ es) g a = elim (Bool-cases (eqb e.sender s)) [
  | inl h ↦ rw (h) (ground (arith, of_sender-run_length s slot es g.1 a.1))
  | inr h ↦
      rw (h) (ground (arith, above-of_sender s es (weaken (suc s) e.sender es (ground arith) g.0)))
]

pub run_length-length : (s : ℕ) (es : List LocationEntry) → run_length s es ≤ length es
unfolding run_length
run_length-length s [] = omega arith
run_length-length s (e ∷ es) = ground (arith, run_length-length s es)

pub drop-IsGrouped : (n : ℕ) (es : List LocationEntry) → IsGrouped es → IsGrouped (drop n es)
unfolding IsGrouped
drop-IsGrouped zero es g = g
drop-IsGrouped (suc n) [] g = g
drop-IsGrouped (suc n) (e ∷ es) g = drop-IsGrouped n es g.1

pub of_sender-nil : (slot : ℕ) → of_sender slot [] ≡ []
unfolding of_sender
of_sender-nil slot = refl

pub run_length-pos :
    (e : LocationEntry) (es : List LocationEntry) → 1 ≤ run_length e.sender (e ∷ es)
unfolding run_length
run_length-pos e es = ground arith

pub lowest :
    (e : LocationEntry) (es : List LocationEntry)
    → IsGrouped (e ∷ es)
    → All (λ (f : LocationEntry). e.sender ≤ f.sender) (e ∷ es)
unfolding IsGrouped
lowest e es g = (omega arith, g.0)

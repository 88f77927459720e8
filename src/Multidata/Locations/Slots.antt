-- ===== src/Multidata/Locations/Slots.antt =====
-- crates/pahoa-multidata/src/locations.rs: the store that `from_entries` builds, as the slots see it.
use pahoa.Prelude.{
  ℕ, zero, suc, ◌+◌, ◌^◌, ◌≤◌, ◌<◌, List, [], ◌∷◌, length, get_elem?, replicate, All,
  length-replicate, ◌≡◌, refl, ap, ◌∙◌, arith, if_both,
}
use pahoa.Multidata.Locations.{
  LocationEntry, key_leb, insert_entry, sort_entries, from_entries, slice?, for_slot, max_slot,
}
use pahoa.Multidata.Locations.Grouped.{of_sender, insert_entry-All, sort_entries-IsGrouped}
use pahoa.Multidata.Locations.Runs.{filled, slice-index_runs}

length-insert_entry :
    (e : LocationEntry) (es : List LocationEntry) → length (insert_entry e es) ≡ suc (length es)
unfolding insert_entry
length-insert_entry e [] = refl
length-insert_entry e (f ∷ fs) = ground (arith, length-insert_entry e fs)

pub length-sort_entries : (es : List LocationEntry) → length (sort_entries es) ≡ length es
unfolding sort_entries
length-sort_entries [] = refl
length-sort_entries (e ∷ es) =
    length-insert_entry e (sort_entries es) ∙ ap suc (length-sort_entries es)

pub sort_entries-All :
    (P : LocationEntry → Type 0) (es : List LocationEntry) → All P es → All P (sort_entries es)
unfolding sort_entries
sort_entries-All P [] a = a
sort_entries-All P (e ∷ es) a =
    insert_entry-All P e (sort_entries es) a.0 (sort_entries-All P es a.1)

All-insert_entry :
    (P : LocationEntry → Type 0) (e : LocationEntry) (es : List LocationEntry)
    → All P (insert_entry e es)
    → P e × All P es
unfolding insert_entry
All-insert_entry P e [] a = a
All-insert_entry P e (f ∷ fs) a =
    if_both (λ xs. All P xs → P e × (P f × All P fs)) (key_leb e f) (λ c b. b)
      (λ c b. let (h, t) = All-insert_entry P e fs b.1 in (h, (b.0, t))) a

pub All-sort_entries :
    (P : LocationEntry → Type 0) (es : List LocationEntry) → All P (sort_entries es) → All P es
unfolding sort_entries
All-sort_entries P [] a = a
All-sort_entries P (e ∷ es) a =
    let (h, t) = All-insert_entry P e (sort_entries es) a in (h, All-sort_entries P es t)

slice-replicate :
    (entries : List LocationEntry) (n slot : ℕ)
    → slice? entries (get_elem? (replicate n (0, 0)) slot) ≡ []
slice-replicate entries zero slot = refl
slice-replicate entries (suc n) zero = refl
slice-replicate entries (suc n) (suc slot) = slice-replicate entries n slot

filled-nil : (es : List LocationEntry) → filled es [] ≡ es
filled-nil [] = refl
filled-nil (e ∷ es) = refl

-- Where no sender is above the highest slot and the positions fit the index, a slot's entries are those
-- of its sender, in the sorted order; so for a slot that the index does not have.
pub for_slot-of_sender :
    (es : List LocationEntry) (max_slot slot : ℕ)
    → All (λ (e : LocationEntry). e.sender ≤ max_slot) es
    → length es < 2 ^ 32
    → for_slot (from_entries es max_slot) slot ≡ of_sender slot (sort_entries es)
unfolding for_slot from_entries
for_slot-of_sender es max_slot slot a h =
    slice-index_runs (sort_entries es) (length (sort_entries es)) 0 (sort_entries es)
      (replicate (max_slot + 1) (0, 0)) 0 slot (omega arith) (omega (arith, length-sort_entries es))
      refl (sort_entries-IsGrouped es)
      (sort_entries-All
        (λ (e : LocationEntry). e.sender < length (replicate {A = ℕ × ℕ} (max_slot + 1) (0, 0))) es
        (below es a))
    ∙ ap (filled (of_sender slot (sort_entries es)))
        (slice-replicate (sort_entries es) (max_slot + 1) slot)
    ∙ filled-nil (of_sender slot (sort_entries es))
  where
    below :
        (es : List LocationEntry)
        → All (λ (e : LocationEntry). e.sender ≤ max_slot) es
        → All
            (λ (e : LocationEntry). e.sender < length (replicate {A = ℕ × ℕ} (max_slot + 1) (0, 0)))
            es
    below [] a = tt
    below (e ∷ es) a =
        (omega (arith, length-replicate {A = ℕ × ℕ} (max_slot + 1) (0, 0)), below es a.1)

-- ===== src/Multidata/Locations/Known.antt =====
-- crates/pahoa-multidata/src/locations.rs: a slot's entries and the lookups of its locations.
use pahoa.Prelude.{
  ℕ, ◌≤◌, ◌<◌, ◌^◌, true, some, List, [], ◌∷◌, length, All, ◌≡◌, sym, ap, ◌∙◌, subst, is_some,
}
use pahoa.Prelude.Result.{ok}
use pahoa.Multidata.Locations.{
  LocationEntry, LocationStore, sort_entries, declared, for_slot, get, contains, validate,
}
use pahoa.Multidata.Locations.Grouped.{of_sender}
use pahoa.Multidata.Locations.Slots.{sort_entries-All}
use pahoa.Multidata.Locations.Unique.{get-declared, of_sender-All, for_slot-declared}

-- Each entry of a slot is found under its location.
abbrev pub KnowsAll : LocationStore → Type 0
KnowsAll store =
    (slot : ℕ)
    → All (λ (e : LocationEntry). contains store slot e.location ≡ true) (for_slot store slot)

module _ (es : List LocationEntry) (highest slots : ℕ)
    (within : All (λ (e : LocationEntry). (1 ≤ e.sender) × (e.sender ≤ highest)) es)
    (short : length es < 2 ^ 32) (valid : validate (declared es highest slots) ≡ ok tt) where
  abbrev Found : LocationEntry → Type 0
  Found e = get (declared es highest slots) e.sender e.location ≡ some e

  pub contains-declared :
      (slot : ℕ) (e : LocationEntry)
      → (e.sender ≡ slot) × Found e
      → contains (declared es highest slots) slot e.location ≡ true
  unfolding contains
  contains-declared slot e h =
      ap (λ s. is_some (get (declared es highest slots) s e.location)) (sym h.0) ∙ ap is_some h.1

  All-impl :
      (P Q : LocationEntry → Type 0)
      → ((e : LocationEntry) → P e → Q e)
      → (xs : List LocationEntry) → All P xs
      → All Q xs
  All-impl P Q f [] a = tt
  All-impl P Q f (x ∷ xs) a = (f x a.0, All-impl P Q f xs a.1)

  pub declared-KnowsAll : KnowsAll (declared es highest slots)
  declared-KnowsAll slot =
      subst
        (All (λ (e : LocationEntry). contains (declared es highest slots) slot e.location ≡ true))
        (sym (for_slot-declared es highest slots slot within short))
        (All-impl (λ e. (e.sender ≡ slot) × Found e)
          (λ e. contains (declared es highest slots) slot e.location ≡ true)
          (contains-declared slot) (of_sender slot (sort_entries es))
          (of_sender-All Found slot (sort_entries es)
            (sort_entries-All Found es (get-declared es highest slots within short valid))))

-- ===== src/Multidata/Locations/Runs.antt =====
-- crates/pahoa-multidata/src/locations.rs: what `from_entries` makes of the entries, slot by slot.
use pahoa.Prelude.{
  ℕ, zero, suc, ◌+◌, ◌%◌, ◌^◌, ◌≤◌, ◌<◌, List, [], ◌∷◌, length, take, drop, get_elem?, set, All,
  length-set, get_elem-set_same, get_elem-set_other, All-drop, length-drop, drop-drop, eqb_iff, eqb,
  ◌≡◌, refl, ap, sym, ◌∙◌, arith, Bool-cases, inl, inr, if◌then◌else◌,
}
use pahoa.Multidata.Locations.{LocationEntry, run_length, index_runs, slice?}
use pahoa.Multidata.Locations.Grouped.{
  of_sender, IsGrouped, drop-run_length, of_sender-run_length, run_length-length, drop-IsGrouped,
  of_sender-nil, run_length-pos, lowest,
}

mod-small : (n : ℕ) → n < 2 ^ 32 → n % 2 ^ 32 ≡ n
mod-small n h = omega arith

abbrev pub filled : List LocationEntry → List LocationEntry → List LocationEntry
filled [] d = d
filled (e ∷ es) d = e ∷ es

filled-take :
    (n : ℕ) (e : LocationEntry) (es d : List LocationEntry)
    → 1 ≤ n
    → filled (take n (e ∷ es)) d ≡ take n (e ∷ es)
filled-take zero e es d h = absurd (omega arith)
filled-take (suc n) e es d h = refl

module _ (entries : List LocationEntry) where
  -- One round of the outer loop, as it is seen by the sender of its run and by any other slot.
  slice-run :
      (s i n : ℕ) (e : LocationEntry) (es : List LocationEntry) (index : List (ℕ × ℕ))
      → 1 ≤ n
      → n < 2 ^ 32
      → i < 2 ^ 32
      → drop i entries ≡ e ∷ es
      → s < length index
      → slice? entries (get_elem? (set index s (i % 2 ^ 32, n % 2 ^ 32)) s) ≡ take n (e ∷ es)
  slice-run s i n e es index h1 hn hi hd hs =
      rw (get_elem-set_same index s (i % 2 ^ 32, n % 2 ^ 32) hs, mod-small i hi, mod-small n hn, hd)

  slice-round :
      (s i n slot : ℕ) (e : LocationEntry) (es : List LocationEntry) (index : List (ℕ × ℕ))
      → 1 ≤ n
      → n < 2 ^ 32
      → i < 2 ^ 32
      → drop i entries ≡ e ∷ es
      → s < length index
      → of_sender s (drop n (e ∷ es)) ≡ []
      → of_sender slot (e ∷ es)
        ≡ (if eqb s slot then take n (e ∷ es) else of_sender slot (drop n (e ∷ es)))
      → filled
          (of_sender slot (drop n (e ∷ es)))
          (slice? entries (get_elem? (set index s (i % 2 ^ 32, n % 2 ^ 32)) slot))
        ≡ filled (of_sender slot (e ∷ es)) (slice? entries (get_elem? index slot))
  slice-round s i n slot e es index h1 hn hi hd hs none_left split =
      elim (Bool-cases (eqb s slot)) [
        | inl c ↦ rw (
          split,
          c,
          sym ((eqb_iff s slot).0 c),
          none_left,
          slice-run s i n e es index h1 hn hi hd hs,
          filled-take n e es (slice? entries (get_elem? index s)) h1,
        )
        | inr c ↦
            rw (split, c, get_elem-set_other index s slot (i % 2 ^ 32, n % 2 ^ 32) (ground arith))
      ]

  -- The slot's range in the index, once it is built, is that of its run; a slot without entries keeps
  -- the range it had.
  pub slice-index_runs :
      (fuel i : ℕ) (es : List LocationEntry) (index : List (ℕ × ℕ)) (slots slot : ℕ)
      → length es ≤ fuel
      → i + length es < 2 ^ 32
      → drop i entries ≡ es
      → IsGrouped es
      → All (λ (f : LocationEntry). f.sender < length index) es
      → slice? entries (get_elem? (index_runs fuel i es index slots).0 slot)
        ≡ filled (of_sender slot es) (slice? entries (get_elem? index slot))
  unfolding index_runs
  slice-index_runs zero i [] index slots slot hf hi hd g a = rw (of_sender-nil slot)
  slice-index_runs zero i (e ∷ es) index slots slot hf hi hd g a = absurd (omega arith)
  slice-index_runs (suc fuel) i [] index slots slot hf hi hd g a = rw (of_sender-nil slot)
  slice-index_runs (suc fuel) i (e ∷ es) index slots slot hf hi hd g a =
      let n : ℕ = run_length e.sender (e ∷ es) in
      let n1 : 1 ≤ n = run_length-pos e es in
      let n2 : n ≤ suc (length es) = run_length-length e.sender (e ∷ es) in
      slice-index_runs fuel (i + n) (drop n (e ∷ es)) (set index e.sender (i % 2 ^ 32, n % 2 ^ 32))
        (suc slots) slot (omega (arith, length-drop n (e ∷ es)))
        (omega (arith, length-drop n (e ∷ es)))
        (sym (drop-drop n i entries) ∙ ap (λ xs. drop n xs) hd) (drop-IsGrouped n (e ∷ es) g)
        (rw (length-set index e.sender (i % 2 ^ 32, n % 2 ^ 32))
          (All-drop (λ (f : LocationEntry). f.sender < length index) n (e ∷ es) a))
      ∙ slice-round e.sender i n slot e es index n1 (omega arith) (omega arith) hd a.0
          (drop-run_length e.sender (e ∷ es) g (lowest e es g))
          (of_sender-run_length e.sender slot (e ∷ es) g (lowest e es g))

pub length-index_runs :
    (fuel i : ℕ) (es : List LocationEntry) (index : List (ℕ × ℕ)) (slots : ℕ)
    → length (index_runs fuel i es index slots).0 ≡ length index
unfolding index_runs
length-index_runs zero i es index slots = refl
length-index_runs (suc fuel) i [] index slots = refl
length-index_runs (suc fuel) i (e ∷ es) index slots =
    let n : ℕ = run_length e.sender (e ∷ es) in
    length-index_runs fuel (i + n) (drop n (e ∷ es)) (set index e.sender (i % 2 ^ 32, n % 2 ^ 32))
      (suc slots)
    ∙ length-set index e.sender (i % 2 ^ 32, n % 2 ^ 32)

-- ===== src/Room/Checks/Sent.antt =====
-- crates/pahoa-room/src/room.rs: the entries of a slot's new checks, in the order in which their items
-- are sent.
use pahoa.Prelude.{
  ℕ, ◌+◌, ◌≤◌, Bool, false, not, ◌&&◌, some, List, [], ◌∷◌, All, ◌≡◌, refl, sym, ap, ◌∙◌, arith,
  if◌then◌else◌, if_both, Option-cases, inl, inr, subst,
}
use pahoa.Prelude.Int.{ℤ, ◌≤ℤ◌, ◌<ℤ◌}
use pahoa.Prelude.Equality.{◌==◌, int_eq, contains}
use pahoa.Prelude.Ordered.{IsOrdered, IsOrdered-of, Decides, sort_by-keeps, sort_by-IsOrdered}
use pahoa.Prelude.Sorting.{insert_sorted, sort_by, dedup_sorted, contains-sort_by}
use pahoa.Multidata.Locations.{LocationEntry, contains as has_location, get as get_entry}
use pahoa.Multidata.Locations.{LocationStore, binary_search}
use pahoa.Room.Hints.Collect.{MultiData}
use pahoa.Room.Checks.{split_fresh, int_leb, sorted_fresh, send_leb, entries_of}
use pahoa.Room.Checks.Fresh.{contains-split_fresh}

-- The receiver counts first, then the item, then the location.
abbrev pub Precedes : LocationEntry → LocationEntry → Type 0
Precedes a b =
    (a.receiver ≤ b.receiver)
    × (b.receiver ≤ a.receiver → (a.item ≤ℤ b.item) × (b.item ≤ℤ a.item → a.location ≤ℤ b.location))

abbrev pub count_at : ℤ → List LocationEntry → ℕ
count_at l [] = 0
count_at l (e ∷ es) = (if e.location == l then 1 else 0) + count_at l es

abbrev count_in : ℤ → List ℤ → ℕ
count_in l [] = 0
count_in l (k ∷ ks) = (if k == l then 1 else 0) + count_in l ks

Precedes-trans : (a b c : LocationEntry) → Precedes a b → Precedes b c → Precedes a c
Precedes-trans a b c h k = grind arith

send_leb-Decides : (a b : LocationEntry) → Decides send_leb Precedes a b
send_leb-Decides a b = ((λ e. ground arith), (λ e. ground arith))

le_trans : (a b c : ℤ) → a ≤ℤ b → b ≤ℤ c → a ≤ℤ c
le_trans a b c h k = omega arith

int_leb-Decides : (a b : ℤ) → Decides int_leb ◌≤ℤ◌ a b
int_leb-Decides a b = ((λ e. ground arith), (λ e. ground arith))

-- A smaller number is not in an ordered list.
absent : (x y : ℤ) (ys : List ℤ) → x <ℤ y → All (λ z. y ≤ℤ z) ys → contains ys x ≡ false
unfolding contains
absent x y [] h a = refl
absent x y (z ∷ ys) h a = ground (arith, a.0, int_eq.beq_iff z x, absent x y ys h a.1)

count_in-dedup_sorted :
    (xs : List ℤ) (l : ℤ)
    → IsOrdered ◌≤ℤ◌ xs
    → count_in l (dedup_sorted xs) ≡ (if contains xs l then 1 else 0)
unfolding contains dedup_sorted
count_in-dedup_sorted [] l o = refl
count_in-dedup_sorted (x ∷ []) l o = ground arith
count_in-dedup_sorted (x ∷ y ∷ ys) l o = ground (
  arith,
  o.0.0,
  int_eq.beq_iff x y,
  int_eq.beq_iff x l,
  int_eq.beq_iff y l,
  absent x y ys,
  count_in-dedup_sorted (y ∷ ys) l o.1,
)

count_in-sorted_fresh :
    (ls : List ℤ) (l : ℤ) → count_in l (sorted_fresh ls) ≡ (if contains ls l then 1 else 0)
unfolding sorted_fresh
count_in-sorted_fresh ls l =
    count_in-dedup_sorted (sort_by int_leb ls) l (
      sort_by-IsOrdered int_leb ◌≤ℤ◌ le_trans ls
        (IsOrdered-of (Decides int_leb ◌≤ℤ◌) int_leb-Decides ls))
    ∙ ap (λ (b : Bool). if b then 1 else 0) (contains-sort_by int_leb ls l)

count_at-insert_sorted :
    (l : ℤ) (e : LocationEntry) (es : List LocationEntry)
    → count_at l (insert_sorted send_leb e es) ≡ (if e.location == l then 1 else 0) + count_at l es
unfolding insert_sorted
count_at-insert_sorted l e [] = refl
count_at-insert_sorted l e (f ∷ es) =
    if_both
      (λ (fs : List LocationEntry).
        count_at l fs ≡ (if e.location == l then 1 else 0) + count_at l (f ∷ es))
      (send_leb e f) (λ h. refl) (λ h. omega (arith, count_at-insert_sorted l e es))

count_at-sort_by :
    (l : ℤ) (es : List LocationEntry) → count_at l (sort_by send_leb es) ≡ count_at l es
unfolding sort_by
count_at-sort_by l [] = refl
count_at-sort_by l (e ∷ es) =
    omega (arith, count_at-insert_sorted l e (sort_by send_leb es), count_at-sort_by l es)

get-location :
    (store : LocationStore) (slot : ℕ) (l : ℤ) (e : LocationEntry)
    → get_entry store slot l ≡ some e
    → e.location ≡ l
unfolding get_entry binary_search
get-location store slot l e h = ground (arith, h)

module _ (seed : MultiData) (slot : ℕ) where
  -- The entry is the one that the table has for its location.
  abbrev pub IsOwn : LocationEntry → Type 0
  IsOwn e = get_entry seed.locations slot e.location ≡ some e

  entries_of-IsOwn : (ls : List ℤ) → All IsOwn (entries_of seed slot ls)
  unfolding entries_of
  entries_of-IsOwn [] = tt
  entries_of-IsOwn (l ∷ ls) = elim (Option-cases (get_entry seed.locations slot l)) [
    | inl e ↦ rw e (entries_of-IsOwn ls)
    | inr (x, e) ↦ rw e (
      subst (λ k. get_entry seed.locations slot k ≡ some x)
          (sym (get-location seed.locations slot l x e)) e,
      entries_of-IsOwn ls,
    )
  ]

  count_at-entries_of :
      (l : ℤ) (ls : List ℤ)
      → count_at l (entries_of seed slot ls)
        ≡ (if has_location seed.locations slot l then count_in l ls else 0)
  unfolding entries_of has_location
  count_at-entries_of l [] = ground arith
  count_at-entries_of l (k ∷ ls) = elim (Option-cases (get_entry seed.locations slot k)) [
    | inl e ↦ ground (arith, e, int_eq.beq_iff k l, count_at-entries_of l ls)
    | inr (x, e) ↦ ground (
      arith,
      e,
      get-location seed.locations slot k x e,
      int_eq.beq_iff k l,
      count_at-entries_of l ls,
    )
  ]

  -- The entries of the slot for the locations among those given that are known and not checked, each
  -- once, ordered by receiver, item and location.
  abbrev pub IsSent : List ℤ → List ℤ → List LocationEntry → Type 0
  IsSent checked ls es =
      IsOrdered Precedes es
      × All IsOwn es
      × ((l : ℤ)
          → count_at l es ≡ (
              if contains ls l && has_location seed.locations slot l && not (contains checked l)
              then 1
              else 0))

  pub sort_by-IsSent :
      (checked ls : List ℤ)
      → IsSent checked ls (
          sort_by send_leb
            (entries_of seed slot (sorted_fresh (split_fresh seed slot checked ls).0)))
  sort_by-IsSent checked ls =
      let fresh = (split_fresh seed slot checked ls).0 in
      let es = entries_of seed slot (sorted_fresh fresh) in
      (
        sort_by-IsOrdered send_leb Precedes Precedes-trans es
            (IsOrdered-of (Decides send_leb Precedes) send_leb-Decides es),
        sort_by-keeps send_leb Precedes Precedes-trans IsOwn es
            (entries_of-IsOwn (sorted_fresh fresh)),
        λ l. ground (
          arith,
          count_at-sort_by l es,
          count_at-entries_of l (sorted_fresh fresh),
          count_in-sorted_fresh fresh l,
          contains-split_fresh seed slot checked ls l,
        ),
      )

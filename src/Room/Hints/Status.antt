-- ===== src/Room/Hints/Status.antt =====
-- crates/pahoa-room/src/hints.rs: `set_status`, and what a found hint's status can be.
use pahoa.Prelude.{
  inl, inr, ℕ, Bool, true, false, ◌&&◌, Option, none, some, List, [], ◌∷◌, All, ◌≡◌, refl, ap, sym,
  arith, if_both, Bool-cases, if◌then◌else◌,
}
use pahoa.Prelude.Int.{ℤ}
use pahoa.Prelude.Equality.{◌==◌, nat_eq, int_eq, pair_eq}
use pahoa.Prelude.Dict.{lookup, get_or-insert}
use pahoa.Multidata.Types.{Hint, HintStatus, found, status_eq}
use pahoa.Room.Hints.{
  SlotKey, HintStore, get, set_status_list, set_status, set_status_in, put_list, covers, effective,
  with_status, cons_first, find, find_hint,
}

abbrev pub map_hint : (Hint → Hint) → Option Hint → Option Hint
map_hint f none = none
map_hint f (some h) = some (f h)

-- The list that a status change leaves.
abbrev left : List Hint → Option (List Hint × Hint) → List Hint
left hs none = hs
left hs (some (hs', h)) = hs'

set_status-same : (status : HintStatus) (h : Hint) → h.status ≡ status → with_status status h ≡ h
set_status-same status h e = ap (λ s. with_status s h) (sym e)

-- Two places that a hint covers are one.
covers-eq : (f g : ℕ) (l k : ℤ) (h : Hint) → covers f l h ≡ true → covers g k h ≡ (f == g && l == k)
covers-eq f g l k h e =
    ground (arith, int_eq.beq_iff h.location l, int_eq.beq_iff h.location k, int_eq.beq_iff l k)

covers-miss :
    (f g : ℕ) (l k : ℤ) (h : Hint)
    → covers f l h ≡ false
    → covers g k h ≡ true
    → (f == g && l == k) ≡ false
covers-miss f g l k h e c =
    ground (arith, int_eq.beq_iff h.location l, int_eq.beq_iff h.location k, int_eq.beq_iff l k)

module _ {ℓ} {A : Type ℓ} where
  if_twice : (b : Bool) (x y z : A) → (if b then x else y) ≡ (if b then x else if b then z else y)
  if_twice true x y z = refl
  if_twice false x y z = refl

  if_swap :
      (c b : Bool) (x y z : A)
      → (c ≡ true → b ≡ false)
      → (if c then x else if b then y else z) ≡ (if b then y else if c then x else z)
  if_swap true b x y z h = rw (h refl)
  if_swap false b x y z h = refl

find-left :
    (g : ℕ) (k : ℤ) (s : HintStatus) (h : Hint) (hs : List Hint)
    → find_hint g k (
        left
          (h ∷ hs)
          (if h.status == s then none else some (with_status s h ∷ hs, with_status s h)))
      ≡ (if covers g k h then some (with_status s h) else find_hint g k hs)
unfolding find_hint
find-left g k s h hs = elim (Bool-cases (h.status == s)) [
  | inl e ↦ rw (e, set_status-same s h ((status_eq.beq_iff h.status s).0 e))
  | inr e ↦ rw e
]

left-cons_first :
    (h : Hint) (hs : List Hint) (o : Option (List Hint × Hint))
    → left (h ∷ hs) (cons_first h o) ≡ h ∷ left hs o
left-cons_first h hs none = refl
left-cons_first h hs (some (hs', x)) = refl

find-set_status_list :
    (f g : ℕ) (l k : ℤ) (status : HintStatus) (hs : List Hint)
    → find_hint g k (left hs (set_status_list f l status hs)) ≡ (
        if f == g && l == k
        then map_hint (λ h. with_status (effective status h) h) (find_hint f l hs)
        else find_hint g k hs)
unfolding find_hint set_status_list
find-set_status_list f g l k status [] = ground arith
find-set_status_list f g l k status (h ∷ hs) = elim (Bool-cases (covers f l h)) [
  | inl e ↦
      rw (e, find-left g k (effective status h) h hs, covers-eq f g l k h e)
        (if_twice (f == g && l == k) _ _ _)
  | inr e ↦
      rw
        (
          e,
          left-cons_first h hs (set_status_list f l status hs),
          find-set_status_list f g l k status hs,
        )
        (if_swap (covers g k h) (f == g && l == k) _ _ _ (covers-miss f g l k h e))
]

get-put_list :
    (store : HintStore) (key j : SlotKey) (o : Option (List Hint × Hint))
    → get (put_list store key o).0 j ≡ (if key == j then left (get store key) o else get store j)
unfolding get
get-put_list store key j none = ground (arith, pair_eq.beq_iff key j)
get-put_list store key j (some (hs, h)) = get_or-insert j key hs [] store.by_slot

abbrev or_empty : Option (List Hint) → List Hint
or_empty none = []
or_empty (some hs) = hs

set_status_in-put_list :
    (store : HintStore) (key : SlotKey) (f : ℕ) (l : ℤ) (status : HintStatus)
    (o : Option (List Hint))
    → set_status_in store key f l status o
      ≡ put_list store key (set_status_list f l status (or_empty o))
unfolding set_status_list
set_status_in-put_list store key f l status none = refl
set_status_in-put_list store key f l status (some hs) = refl

elim-or_empty : (o : Option (List Hint)) → (elim o [ some hs ↦ hs | none ↦ [] ]) ≡ or_empty o
elim-or_empty none = refl
elim-or_empty (some hs) = refl

get-or_empty :
    (store : HintStore) (key : SlotKey) → get store key ≡ or_empty (lookup key store.by_slot)
unfolding get
get-or_empty store key = elim-or_empty (lookup key store.by_slot)

set_status-put_list :
    (store : HintStore) (key : SlotKey) (f : ℕ) (l : ℤ) (status : HintStatus)
    → set_status store key f l status
      ≡ put_list store key (set_status_list f l status (get store key))
unfolding set_status
set_status-put_list store key f l status =
    rw (
      get-or_empty store key,
      set_status_in-put_list store key f l status (lookup key store.by_slot),
    )

-- The slot's list after a status change.
get-set_status :
    (store : HintStore) (key j : SlotKey) (f : ℕ) (l : ℤ) (status : HintStatus)
    → get (set_status store key f l status).0 j ≡ (
        if key == j
        then left (get store key) (set_status_list f l status (get store key))
        else get store j)
get-set_status store key j f l status =
    rw (set_status-put_list store key f l status)
      (get-put_list store key j (set_status_list f l status (get store key)))

-- After a status change, the hint for the location in the slot's list is the one that was there with
-- the new status, or with `found` if it is a found hint; the hint for any other location or in another
-- slot's list is the one that was there.
pub find-set_status :
    (store : HintStore) (key j : SlotKey) (f g : ℕ) (l k : ℤ) (status : HintStatus)
    → find (set_status store key f l status).0 j g k ≡ (
        if key == j && (f == g && l == k)
        then map_hint (λ h. with_status (effective status h) h) (find store key f l)
        else find store j g k)
unfolding find
find-set_status store key j f g l k status = ground (
  arith,
  pair_eq.beq_iff key j,
  get-set_status store key j f l status,
  find-set_status_list f g l k status (get store key),
)

-- A found hint has the status `found`.
unfoldable pub IsSettled : HintStore → Type 0
IsSettled store =
    (key : SlotKey) → All (λ (h : Hint). h.found ≡ true → h.status ≡ found) (get store key)

left-IsSettled :
    (f : ℕ) (l : ℤ) (status : HintStatus) (hs : List Hint)
    → All (λ (h : Hint). h.found ≡ true → h.status ≡ found) hs
    → All
        (λ (h : Hint). h.found ≡ true → h.status ≡ found)
        (left hs (set_status_list f l status hs))
unfolding set_status_list
left-IsSettled f l status [] s = tt
left-IsSettled f l status (h ∷ hs) s =
    if_both (λ o. All (λ (h : Hint). h.found ≡ true → h.status ≡ found) (left (h ∷ hs) o))
      (covers f l h)
      (λ e.
        if_both (λ o. All (λ (h : Hint). h.found ≡ true → h.status ≡ found) (left (h ∷ hs) o))
          (h.status == effective status h) (λ c. s) (λ c. (ground arith, s.1)))
      (λ e.
        rw (left-cons_first h hs (set_status_list f l status hs))
          (s.0, left-IsSettled f l status hs s.1))

-- No status change gives a found hint another status than `found`.
pub set_status-IsSettled :
    (store : HintStore) (key : SlotKey) (f : ℕ) (l : ℤ) (status : HintStatus)
    → IsSettled store
    → IsSettled (set_status store key f l status).0
unfolding IsSettled
set_status-IsSettled store key f l status s j = rw (get-set_status store key j f l status) (
    if_both (λ hs. All (λ (h : Hint). h.found ≡ true → h.status ≡ found) hs) (key == j)
      (λ e. left-IsSettled f l status (get store key) (s key)) (λ e. s j))

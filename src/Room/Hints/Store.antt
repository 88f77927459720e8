-- ===== src/Room/Hints/Store.antt =====
-- crates/pahoa-room/src/hints.rs: `upsert` against membership by identity.
use pahoa.Prelude.{
  ◌+◌, false, not, ◌&&◌, ◌||◌, List, [], ◌∷◌, length, ◌≡◌, refl, arith, if_both, if◌then◌else◌,
}
use pahoa.Prelude.Equality.{◌==◌, nat_eq, pair_eq, beq_refl}
use pahoa.Prelude.Dict.{get_or-insert}
use pahoa.Multidata.Types.{Hint, HintIdentity, identity, identity_eq}
use pahoa.Room.Hints.{SlotKey, HintStore, get, upsert_hint, upsert, any_identity, contains}

-- No two hints of a list have one identity.
unfoldable pub IsDistinct : List Hint → Type 0
IsDistinct [] = Unit
IsDistinct (h ∷ hs) = (any_identity (identity h) hs ≡ false) × IsDistinct hs

-- No slot's list has two hints of one identity.
unfoldable pub IsUnique : HintStore → Type 0
unfolding IsDistinct
IsUnique store = (key : SlotKey) → IsDistinct (get store key)

any_identity-upsert_hint :
    (id : HintIdentity) (hint : Hint) (hs : List Hint)
    → any_identity id (upsert_hint hint hs).0 ≡ (identity hint == id || any_identity id hs)
unfolding any_identity upsert_hint
any_identity-upsert_hint id hint [] = refl
any_identity-upsert_hint id hint (h ∷ hs) =
    ground
      (arith, identity_eq.beq_iff (identity h) (identity hint), any_identity-upsert_hint id hint hs)

upsert_hint-fresh :
    (hint : Hint) (hs : List Hint) → (upsert_hint hint hs).1 ≡ not (any_identity (identity hint) hs)
unfolding any_identity upsert_hint
upsert_hint-fresh hint [] = refl
upsert_hint-fresh hint (h ∷ hs) = ground (arith, upsert_hint-fresh hint hs)

length-upsert_hint :
    (hint : Hint) (hs : List Hint)
    → length (upsert_hint hint hs).0
      ≡ length hs + (if any_identity (identity hint) hs then 0 else 1)
unfolding any_identity upsert_hint
length-upsert_hint hint [] = refl
length-upsert_hint hint (h ∷ hs) = ground (arith, length-upsert_hint hint hs)

upsert_hint-IsDistinct :
    (hint : Hint) (hs : List Hint) → IsDistinct hs → IsDistinct (upsert_hint hint hs).0
unfolding any_identity upsert_hint IsDistinct
upsert_hint-IsDistinct hint [] d = (refl, tt)
upsert_hint-IsDistinct hint (h ∷ hs) d = ground (
  arith,
  identity_eq.beq_iff (identity h) (identity hint),
  identity_eq.beq_iff (identity hint) (identity h),
  any_identity-upsert_hint (identity h) hint hs,
  upsert_hint-IsDistinct hint hs d.1,
)

get-upsert :
    (store : HintStore) (key j : SlotKey) (hint : Hint)
    → get (upsert store key hint).0 j
      ≡ (if key == j then (upsert_hint hint (get store key)).0 else get store j)
unfolding get upsert
get-upsert store key j hint =
    get_or-insert j key (upsert_hint hint (get store key)).0 [] store.by_slot

-- After an upsert, a slot's list has a hint of an identity if and only if it had one, or the slot and
-- the identity are those of the upsert.
pub contains-upsert :
    (store : HintStore) (key j : SlotKey) (hint : Hint) (id : HintIdentity)
    → contains (upsert store key hint).0 j id
      ≡ ((key == j && identity hint == id) || contains store j id)
unfolding contains
contains-upsert store key j hint id = ground (
  arith,
  get-upsert store key j hint,
  any_identity-upsert_hint id hint (get store key),
  pair_eq.beq_iff key j,
)

-- An upsert says that the hint is new if and only if the list had none of its identity, and only then
-- is the list longer, by one.
pub upsert-fresh :
    (store : HintStore) (key : SlotKey) (hint : Hint)
    → ((upsert store key hint).1 ≡ not (contains store key (identity hint)))
      × (length (get (upsert store key hint).0 key)
          ≡ length (get store key) + (if (upsert store key hint).1 then 1 else 0))
unfolding contains upsert
upsert-fresh store key hint = ground (
  arith,
  get-upsert store key key hint,
  beq_refl key,
  upsert_hint-fresh hint (get store key),
  length-upsert_hint hint (get store key),
)

-- An upsert keeps the identities of every slot's list distinct.
pub upsert-IsUnique :
    (store : HintStore) (key : SlotKey) (hint : Hint)
    → IsUnique store
    → IsUnique (upsert store key hint).0
unfolding IsUnique
upsert-IsUnique store key hint u j = rw (get-upsert store key j hint) (
    if_both IsDistinct (key == j) (λ e. upsert_hint-IsDistinct hint (get store key) (u key))
      (λ e. u j))

-- ===== src/Datastore/Update.antt =====
-- crates/pahoa-datastore/src/ops.rs: what an update appends to a list.
use pahoa.Prelude.{
  ◌+◌, ◌≤◌, true, List, [], ◌∷◌, ◌++◌, length, ◌≡◌, sym, ap, arith, if◌then◌else◌, length-append,
}
use mathlib.Core.List.{append_assoc, append-nil}
use pahoa.Prelude.Result.{ok}
use pahoa.Json.{Value, array_of, items_list-list_items}
use pahoa.Datastore.Numbers.{Floats}
use pahoa.Datastore.Values.{py_contains}
use pahoa.Datastore.Arith.{max_result_len}
use pahoa.Datastore.Containers.{append_new, all_hashable, update}

module _ {T : Type 0} (fs : Floats T) where
  -- The entries that a list does not have, by Python's equality.
  unfoldable pub missing_from : List (Value T) → List (Value T) → List (Value T)
  missing_from original [] = []
  missing_from original (entry ∷ entries) =
      let rest = missing_from original entries in
      if py_contains fs original entry then rest else entry ∷ rest

  append_new-missing :
      (original entries items : List (Value T))
      → all_hashable entries ≡ true
      → length items + length entries ≤ max_result_len
      → append_new fs original entries items ≡ ok (items ++ missing_from original entries)
  unfolding append_new missing_from
  append_new-missing original [] items h short = ap ok (sym (append-nil items))
  append_new-missing original (entry ∷ entries) items h short = ground (
    arith,
    append_new-missing original entries items,
    append_new-missing original entries (items ++ entry ∷ []),
    length-append items (entry ∷ []),
    append_assoc items (entry ∷ []) (missing_from original entries),
  )

  -- Where all are hashable and there are no more of both than a list may hold, an update of a list by
  -- a list appends, in their order, the entries that the list did not have before, equal ones among
  -- them as often as they are given.
  pub update-array :
      (items entries : List (Value T))
      → all_hashable items ≡ true
      → all_hashable entries ≡ true
      → length items + length entries ≤ max_result_len
      → update fs (array_of items) (array_of entries)
        ≡ ok (array_of (items ++ missing_from items entries))
  unfolding update
  update-array items entries hashed h short = rw (
    items_list-list_items items,
    items_list-list_items entries,
    hashed,
    append_new-missing items entries items h short,
  )

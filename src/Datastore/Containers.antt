-- ===== src/Datastore/Containers.antt =====
-- crates/pahoa-datastore/src/ops.rs: the operations on lists and dictionaries.
use Prim.Native.String.{String}
use pahoa.Prelude.{
  ℕ, suc, ◌-◌, Bool, true, false, ◌&&◌, Option, none, some, List, [], ◌∷◌, ◌++◌, map, take, drop,
  length, ltb, leb, if◌then◌else◌,
}
use pahoa.Prelude.Int.{ℤ, pos, negsuc}
use pahoa.Prelude.Result.{Result, ok, err, ◌>>=◌}
use pahoa.Prelude.Equality.{◌==◌, string_eq}
use pahoa.Prelude.Dict.{Dict, insert}
use pahoa.Prelude.Text.{format, show}
use pahoa.Json.{Value, text, array, object, items_list, fields_dict, array_of, object_of}
use pahoa.Datastore.Numbers.{Floats, PyNum, int_num, is_negative, to_i64}
use pahoa.Datastore.Values.{as_num, py_eq, py_contains, is_hashable}
use pahoa.Datastore.Arith.{
  OpError, type_error, value_error, index_error, unhashable, result_too_large, type_name, OpResult,
  max_result_len, ok_or,
}

-- The characters of a text, each as a text.
unfoldable pub chars : String → List String
chars String.[] = []
chars (String.◌∷◌ c s) = String.◌∷◌ c String.[] ∷ chars s

-- `Vec::remove`
abbrev pub remove_at {ℓ} : {A : Type ℓ} → List A → ℕ → List A
remove_at xs i = take i xs ++ drop (suc i) xs

module _ {T : Type 0} where
  abbrev pub as_texts : List String → List (Value T)
  as_texts ss = map (λ s. text s) ss

  abbrev pub first_of : String × Value T → String
  first_of (k, v) = k

  unfoldable pub iterate : Value T → Option (List (Value T))
  unfolding chars
  iterate (array xs) = some (items_list xs)
  iterate (text s) = some (as_texts (chars s))
  iterate (object fs) = some (as_texts (map first_of (fields_dict fs)))
  iterate _ = none

  -- `Map::shift_remove`
  unfoldable pub shift_remove : String → Dict String (Value T) → Dict String (Value T)
  shift_remove k [] = []
  shift_remove k ((j, v) ∷ d) = if j == k then d else (j, v) ∷ shift_remove k d

  unfoldable pub insert_all : Dict String (Value T) → Dict String (Value T) → Dict String (Value T)
  unfolding insert
  insert_all [] d = d
  insert_all ((k, v) ∷ entries) d = insert_all entries (insert k v d)

  -- An index of the list; one from the end may be out of range.
  abbrev pub pop_index : List (Value T) → ℤ → OpResult T
  pop_index items (pos i) =
      if leb (length items) i then ok (array_of items) else ok (array_of (remove_at items i))
  pop_index items (negsuc i) =
      if ltb (length items) (suc i)
      then err index_error
      else ok (array_of (remove_at items (length items - suc i)))

  abbrev pub pop_wide : List (Value T) → ℤ → OpResult T
  pop_wide items i = if is_negative i then err index_error else ok (array_of items)

  abbrev pub pop_key : Dict String (Value T) → Value T → OpResult T
  pop_key d (text s) = ok (object_of (shift_remove s d))
  pop_key d (array xs) = err (type_error "pop" "dict" "list")
  pop_key d (object fs) = err (type_error "pop" "dict" "dict")
  pop_key d _ = ok (object_of d)

  abbrev pub all_hashable : List (Value T) → Bool
  all_hashable [] = true
  all_hashable (v ∷ vs) = is_hashable v && all_hashable vs

  -- A pair of a key, which must be a text, and a value.
  abbrev pub insert_pair :
      ℕ → List (Value T) → Dict String (Value T) → Result {0, 0} OpError (Dict String (Value T))
  insert_pair i (text s ∷ v ∷ []) d = ok (insert s v d)
  insert_pair i (k ∷ v ∷ []) d = err (type_error "update" "dict key" (type_name k))
  insert_pair i kv d = err (
      value_error (
        format (
          "dictionary update sequence element #"
          ∷ show i
          ∷ " has length "
          ∷ show (length kv)
          ∷ "; 2 is required"
          ∷ [])))

  unfoldable pub insert_pairs :
      ℕ → List (Value T) → Dict String (Value T) → Result {0, 0} OpError (Dict String (Value T))
  unfolding iterate
  insert_pairs i [] d = ok d
  insert_pairs i (element ∷ elements) d = do
    kv ← ok_or (type_error "update" "dict" (type_name element)) (iterate element)
    d' ← insert_pair i kv d
    insert_pairs (suc i) elements d'

  unfoldable pub update_dict : Dict String (Value T) → Value T → OpResult T
  unfolding insert_pairs insert_all iterate
  update_dict d (object entries) = ok (object_of (insert_all (fields_dict entries) d))
  update_dict d other = do
    elements ← ok_or (type_error "update" "dict" (type_name other)) (iterate other)
    d' ← insert_pairs 0 elements d
    ok (object_of d')

module _ {T : Type 0} (fs : Floats T) where
  -- The first element that is equal goes.
  unfoldable pub remove_first : List (Value T) → Value T → List (Value T)
  remove_first [] arg = []
  remove_first (v ∷ vs) arg = if py_eq fs v arg then vs else v ∷ remove_first vs arg

  unfoldable pub remove : Value T → Value T → OpResult T
  unfolding remove_first
  remove (array xs) arg = ok (array_of (remove_first (items_list xs) arg))
  remove other arg = err (type_error "remove" (type_name other) (type_name arg))

  abbrev pub pop_by : List (Value T) → Value T → Option (PyNum fs) → OpResult T
  pop_by items arg (some (int_num i)) = elim (to_i64 i) [
    | some j ↦ pop_index items j
    | none ↦ pop_wide items i
  ]
  pop_by items arg _ = err (type_error "pop" "list" (type_name arg))

  unfoldable pub pop : Value T → Value T → OpResult T
  pop (array xs) arg = pop_by (items_list xs) arg (as_num fs arg)
  pop (object d) arg = pop_key (fields_dict d) arg
  pop other arg = err (type_error "pop" (type_name other) (type_name arg))

  -- Each entry is looked for in the list as it was, not as it grows.
  unfoldable pub append_new :
      List (Value T) → List (Value T) → List (Value T) → Result {0, 0} OpError (List (Value T))
  append_new original [] items = ok items
  append_new original (entry ∷ entries) items = elim (is_hashable entry) [
    | false ↦ err unhashable
    | true ↦ elim (py_contains fs original entry) [
      | true ↦ append_new original entries items
      | false ↦ elim (leb max_result_len (length items)) [
        | true ↦ err result_too_large
        | false ↦ append_new original entries (items ++ entry ∷ [])
      ]
    ]
  ]

  abbrev pub update_list : List (Value T) → List (Value T) → OpResult T
  update_list items entries =
      if all_hashable items
      then (do out ← append_new items entries items; ok (array_of out))
      else err unhashable

  unfoldable pub update : Value T → Value T → OpResult T
  unfolding append_new update_dict iterate
  update (array xs) arg = do
    entries ← ok_or (type_error "update" "list" (type_name arg)) (iterate arg)
    update_list (items_list xs) entries
  update (object d) arg = update_dict (fields_dict d) arg
  update current arg = err (type_error "update" (type_name current) (type_name arg))

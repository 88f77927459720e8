-- ===== src/Json.antt =====
-- JSON values, as serde_json holds them with digits kept as written and keys in the order of
-- insertion. `T` is the text of a number that is no integer; an integer is held by its value.
use Prim.Native.String.{String}
use pahoa.Prelude.{Bool, List, [], ◌∷◌, ◌≡◌, refl, ap}
use pahoa.Prelude.Int.{ℤ}
use pahoa.Prelude.Dict.{Dict}

mutual
  pub data Value (T : Type 0) : Type 0 where
    null : Value T
    bool : Bool → Value T
    int : ℤ → Value T
    real : T → Value T
    text : String → Value T
    array : Items T → Value T
    object : Fields T → Value T

  pub data Items (T : Type 0) : Type 0 where
    nil : Items T
    cons : Value T → Items T → Items T

  pub data Fields (T : Type 0) : Type 0 where
    end : Fields T
    field : String → Value T → Fields T → Fields T

module _ {T : Type 0} where
  -- A `Vec<Value>` as a list, and back.
  unfoldable pub items_list : Items T → List (Value T)
  items_list nil = []
  items_list (cons x xs) = x ∷ items_list xs

  unfoldable pub list_items : List (Value T) → Items T
  list_items [] = nil
  list_items (x ∷ xs) = cons x (list_items xs)

  -- A `Map<String, Value>` as a dictionary, and back.
  unfoldable pub fields_dict : Fields T → Dict String (Value T)
  fields_dict end = []
  fields_dict (field k v fs) = (k, v) ∷ fields_dict fs

  unfoldable pub dict_fields : Dict String (Value T) → Fields T
  dict_fields [] = end
  dict_fields ((k, v) ∷ d) = field k v (dict_fields d)

  pub items_list-list_items : (xs : List (Value T)) → items_list (list_items xs) ≡ xs
  unfolding items_list list_items
  items_list-list_items [] = refl
  items_list-list_items (x ∷ xs) = ap (λ ys. x ∷ ys) (items_list-list_items xs)

  pub fields_dict-dict_fields : (d : Dict String (Value T)) → fields_dict (dict_fields d) ≡ d
  unfolding fields_dict dict_fields
  fields_dict-dict_fields [] = refl
  fields_dict-dict_fields ((k, v) ∷ d) = ap (λ e. (k, v) ∷ e) (fields_dict-dict_fields d)

  abbrev pub array_of : List (Value T) → Value T
  array_of xs = array (list_items xs)

  abbrev pub object_of : Dict String (Value T) → Value T
  object_of d = object (dict_fields d)

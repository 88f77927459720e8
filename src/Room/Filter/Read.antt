-- ===== src/Room/Filter/Read.antt =====
-- crates/pahoa-room/src/filter.rs: how a filter is read from JSON and written to it.
use pahoa.Prelude.{
  ℕ, suc, Bool, true, false, not, ◌&&◌, ltb, Option, none, some, is_some, List, [], ◌∷◌, ◌++◌, map,
  length, String, if◌then◌else◌,
}
use pahoa.Prelude.Result.{ok, err, ◌>>=◌}
use pahoa.Prelude.Equality.{◌==◌, string_eq}
use pahoa.Prelude.Dict.{Dict, lookup}
use pahoa.Prelude.Text.{format, show}
use pahoa.Prelude.Ascii.{to_ascii_lowercase}
use pahoa.Json.{Value, null, text, array, object, items_list, fields_dict, array_of, object_of}
use pahoa.Room.Filter.{
  Direction, from_slot, Kind, bounce, print_json, filter_kind_eq, direction_eq, direction_text,
  direction_from_text, kind_text, kind_from_text, all_kinds, travels, Shares, Rule, Filter,
  max_rules, RuleResult,
}

-- The kinds that no filter may name, and why.
abbrev refused : List (String × String)
refused =
    (
      "received_items",
      "dropping an item delivery desynchronizes the slot: the room advances its send index as it sends, so the client would never learn what it missed",
    )
    ∷ ("connected", "a client that never receives its Connect reply cannot play at all")
    ∷ ("location_info", "scout results answer a request the client is waiting on")
    ∷ ("room_update", "room updates carry checked locations and permissions the client acts on")
    ∷ []

unfoldable pub join : String → List String → String
join between [] = ""
join between (s ∷ []) = s
join between (s ∷ t ∷ ts) = format (s ∷ between ∷ join between (t ∷ ts) ∷ [])

abbrev pub ok_or : {A : Type 0} → Option A → String → RuleResult A
ok_or (some a) message = ok a
ok_or none message = err message

abbrev pub require : Bool → String → RuleResult (Unit {0})
require true message = ok tt
require false message = err message

unfoldable pub build_rule :
    {F : Type 0}
    → Direction
    → Kind
    → RuleResult (Option String)
    → RuleResult (Option String)
    → RuleResult F
    → RuleResult (Rule F)
build_rule direction kind tag_read subtype_read share_read = do
  tag ← tag_read
  subtype ← subtype_read
  _ ← require (not (is_some tag && not (kind == bounce))) "\"tag\" only applies to a bounce"
  _ ←
      require (not (is_some subtype && not (kind == print_json)))
        "\"subtype\" only applies to print_json"
  probability ← share_read
  ok (record {
    direction = direction;
    kind = kind;
    tag = tag;
    subtype = subtype;
    probability = probability;
  })

abbrev pub at_rule : {F : Type 0} → ℕ → RuleResult (Rule F) → RuleResult (Rule F)
at_rule i (ok rule) = ok rule
at_rule i (err e) = err (format ("rule " ∷ show i ∷ ": " ∷ e ∷ []))

module _ {T F : Type 0} (shares : Shares T F) where
  abbrev pub quoted : String → String
  quoted s = shares.debug s

  unfoldable pub explain_kind : String → String
  unfolding lookup
  explain_kind name = elim (lookup (to_ascii_lowercase name) refused) [
    | some why ↦ format (quoted name ∷ " cannot be filtered: " ∷ why ∷ [])
    | none ↦
        format
          ("unknown kind " ∷ quoted name ∷ ", known: " ∷ join ", " (map kind_text all_kinds) ∷ [])
  ]

  abbrev pub text_value : Option (Value T) → Option String
  text_value (some (text s)) = some s
  text_value _ = none

  unfoldable pub text_of : Dict String (Value T) → String → RuleResult String
  text_of fields name =
      ok_or (text_value (lookup name fields))
        (format (quoted name ∷ " is required and must be a string" ∷ []))

  -- A field that may be left out or null, and else is a text that is not empty.
  unfoldable pub optional : String → Option (Value T) → RuleResult (Option String)
  optional name none = ok none
  optional name (some null) = ok none
  optional name (some (text s)) =
      if s == "" then err (format (quoted name ∷ " must not be empty" ∷ [])) else ok (some s)
  optional name (some other) = err (format (quoted name ∷ " must be a string" ∷ []))

  abbrev pub in_unit : F → Bool
  in_unit p = shares.leb shares.zero p && shares.leb p shares.one

  abbrev pub share_of : Value T → RuleResult F
  share_of v = do
    p ← ok_or (shares.as_f64 v) "\"p\" must be a number"
    _ ← require (in_unit p) (
        format (
          "\"p\" is the share of matching messages to drop and must be between 0 and 1, got "
          ∷ shares.display p
          ∷ []))
    ok p

  unfoldable pub share_or_one : Option (Value T) → RuleResult F
  share_or_one none = ok shares.one
  share_or_one (some null) = ok shares.one
  share_or_one (some v) = share_of v

  abbrev pub wrong_way : Kind → Direction → String
  wrong_way kind direction = format (
      "a "
      ∷ kind_text kind
      ∷ " cannot travel "
      ∷ direction_text direction
      ∷ "; it is "
      ∷ (if travels kind from_slot then "something a slot sends" else "something a slot receives")
      ∷ [])

  -- The rest of a rule whose direction and kind are known.
  unfoldable pub rule_with : Dict String (Value T) → Direction → Kind → RuleResult (Rule F)
  rule_with fields direction kind =
      build_rule direction kind (optional "tag" (lookup "tag" fields))
        (optional "subtype" (lookup "subtype" fields)) (share_or_one (lookup "p" fields))

  unfoldable pub read_direction : Dict String (Value T) → RuleResult Direction
  read_direction fields = do
    way ← text_of fields "direction"
    ok_or (direction_from_text way)
        (format ("unknown direction " ∷ quoted way ∷ ", known: from_slot, to_slot" ∷ []))

  unfoldable pub read_kind : Dict String (Value T) → RuleResult Kind
  read_kind fields = do
    named ← text_of fields "kind"
    ok_or (kind_from_text named) (explain_kind named)

  unfoldable pub rule_from_fields : Dict String (Value T) → RuleResult (Rule F)
  rule_from_fields fields = do
    direction ← read_direction fields
    kind ← read_kind fields
    _ ← require (travels kind direction) (wrong_way kind direction)
    rule_with fields direction kind

  unfoldable pub rule_from_json : Value T → RuleResult (Rule F)
  rule_from_json (object o) = rule_from_fields (fields_dict o)
  rule_from_json other = err "a rule must be a JSON object"

  abbrev pub text_field : String → Option String → Dict String (Value T)
  text_field name none = []
  text_field name (some s) = (name, text s) ∷ []

  -- The fields are written in this order, and no two have one name.
  unfoldable pub rule_to_json : Rule F → Value T
  rule_to_json rule = object_of (
      ("direction", text (direction_text rule.direction))
        ∷ ("kind", text (kind_text rule.kind))
        ∷ text_field "tag" rule.tag
      ++ text_field "subtype" rule.subtype
      ++ (if shares.eqb rule.probability shares.one
          then []
          else ("p", shares.of_f64 rule.probability) ∷ []))

  unfoldable pub rules_from : ℕ → List (Value T) → RuleResult (List (Rule F))
  rules_from i [] = ok []
  rules_from i (v ∷ vs) = do
    rule ← at_rule i (rule_from_json v)
    rest ← rules_from (suc i) vs
    ok (rule ∷ rest)

  abbrev pub array_value : Option (Value T) → Option (List (Value T))
  array_value (some (array items)) = some (items_list items)
  array_value _ = none

  abbrev pub rule_list : Value T → RuleResult (List (Value T))
  rule_list (array items) = ok (items_list items)
  rule_list (object o) =
      ok_or (array_value (lookup "rules" (fields_dict o))) "expected {\"rules\": [...]}"
  rule_list other = err "expected a list of rules"

  unfoldable pub from_json : Value T → RuleResult (Filter F)
  from_json value = do
    entries ← rule_list value
    _ ←
        require (not (ltb max_rules (length entries)))
          (format ("at most " ∷ show max_rules ∷ " rules, got " ∷ show (length entries) ∷ []))
    rules ← rules_from 0 entries
    ok (record { rules = rules })

  unfoldable pub to_json : Filter F → Value T
  to_json filter = array_of (map rule_to_json filter.rules)

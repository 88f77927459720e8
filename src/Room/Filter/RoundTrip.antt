-- ===== src/Room/Filter/RoundTrip.antt =====
-- crates/pahoa-room/src/filter.rs: a filter that is written as JSON and read again.
use pahoa.Prelude.{
  length-map, ℕ, suc, ltb, length, map, true, false, Option, none, some, List, [], ◌∷◌, ◌++◌, All,
  String, ◌≡◌, ◌≤◌, refl, arith, if◌then◌else◌,
}
use pahoa.Prelude.Result.{ok}
use pahoa.Prelude.Equality.{string_eq}
use pahoa.Prelude.Dict.{Dict, lookup}
use pahoa.Json.{Value, null, text, fields_dict-dict_fields, items_list-list_items}
use pahoa.Room.Filter.{
  Direction, Kind, Shares, Rule, Filter, direction_text, direction_from_text, kind_text,
  kind_from_text, travels, max_rules,
}
use pahoa.Room.Filter.Read.{
  in_unit, text_of, optional, share_or_one, build_rule, rule_with, read_direction, read_kind,
  rule_from_fields, rule_from_json, rule_to_json, text_field, rules_from, from_json, to_json,
}
use pahoa.Room.Filter.Parsed.{is_sound, is_text, from_json-is_sound}

direction_from_text-direction_text :
    (d : Direction) → direction_from_text (direction_text d) ≡ some d
unfolding direction_text direction_from_text
direction_from_text-direction_text Direction.from_slot = refl
direction_from_text-direction_text Direction.to_slot = refl

kind_from_text-kind_text : (k : Kind) → kind_from_text (kind_text k) ≡ some k
unfolding kind_text kind_from_text
kind_from_text-kind_text Kind.bounce = refl
kind_from_text-kind_text Kind.print_json = refl
kind_from_text-kind_text Kind.set = refl
kind_from_text-kind_text Kind.set_reply = refl
kind_from_text-kind_text Kind.retrieved = refl
kind_from_text-kind_text Kind.status_update = refl
kind_from_text-kind_text Kind.say = refl

module _ {T F : Type 0} (shares : Shares T F) where
  abbrev written :
      Direction
      → Kind
      → Option String
      → Option String
      → Dict String (Value T)
      → Dict String (Value T)
  written d k tag subtype share =
      ("direction", text (direction_text d))
        ∷ ("kind", text (kind_text k))
        ∷ text_field shares "tag" tag
      ++ text_field shares "subtype" subtype
      ++ share

  abbrev share_field : F → Dict String (Value T)
  share_field p = if shares.eqb p shares.one then [] else ("p", shares.of_f64 p) ∷ []

  lookup-tag :
      (d : Direction) (k : Kind) (tag subtype : Option String) (p : F)
      → is_text tag ≡ true
      → optional shares "tag" (lookup "tag" (written d k tag subtype (share_field p))) ≡ ok tag
  unfolding optional lookup
  lookup-tag d k tag subtype p h = ground arith

  lookup-subtype :
      (d : Direction) (k : Kind) (tag subtype : Option String) (p : F)
      → is_text subtype ≡ true
      → optional shares "subtype" (lookup "subtype" (written d k tag subtype (share_field p)))
        ≡ ok subtype
  unfolding optional lookup
  lookup-subtype d k tag subtype p h = ground arith

  lookup-share :
      (d : Direction) (k : Kind) (tag subtype : Option String) (p : F)
      → lookup "p" (written d k tag subtype (share_field p))
        ≡ (if shares.eqb p shares.one then none else some (shares.of_f64 p))
  unfolding lookup
  lookup-share d k tag subtype p = ground arith

  share_or_one-of_f64 :
      shares.as_f64 null ≡ none
      → (p : F) → (shares.eqb p shares.one ≡ true → p ≡ shares.one)
      → shares.as_f64 (shares.of_f64 p) ≡ some p
      → in_unit shares p ≡ true
      → share_or_one shares (if shares.eqb p shares.one then none else some (shares.of_f64 p))
        ≡ ok p
  unfolding share_or_one
  share_or_one-of_f64 h p one kept within = of_value (shares.of_f64 p) kept
    where
      of_value :
          (v : Value T)
          → shares.as_f64 v ≡ some p
          → share_or_one shares (if shares.eqb p shares.one then none else some v) ≡ ok p
      of_value v kept = ground arith

  build_rule_sound :
      (d : Direction) (k : Kind) (tag subtype : Option String) (p : F)
      → is_sound shares
          (record { direction = d; kind = k; tag = tag; subtype = subtype; probability = p })
        ≡ true
      → build_rule d k (ok tag) (ok subtype) (ok p)
        ≡ ok (record { direction = d; kind = k; tag = tag; subtype = subtype; probability = p })
  unfolding build_rule
  build_rule_sound d k tag subtype p sound = ground arith

  read_direction-written :
      (d : Direction) (k : Kind) (tag subtype : Option String) (p : F)
      → read_direction shares (written d k tag subtype (share_field p)) ≡ ok d
  unfolding read_direction text_of lookup
  read_direction-written d k tag subtype p = ground (arith, direction_from_text-direction_text d)

  read_kind-written :
      (d : Direction) (k : Kind) (tag subtype : Option String) (p : F)
      → read_kind shares (written d k tag subtype (share_field p)) ≡ ok k
  unfolding read_kind text_of lookup
  read_kind-written d k tag subtype p = ground (arith, kind_from_text-kind_text k)

  -- What the machine's floats and JSON's numbers are documented to do.
  module _ (one_only : (p : F) → shares.eqb p shares.one ≡ true → p ≡ shares.one)
      (kept : (p : F) → in_unit shares p ≡ true → shares.as_f64 (shares.of_f64 p) ≡ some p)
      (no_number : shares.as_f64 null ≡ none) where
    rule_with-written :
        (d : Direction) (k : Kind) (tag subtype : Option String) (p : F)
        → is_sound shares
            (record { direction = d; kind = k; tag = tag; subtype = subtype; probability = p })
          ≡ true
        → rule_with shares (written d k tag subtype (share_field p)) d k
          ≡ ok (record { direction = d; kind = k; tag = tag; subtype = subtype; probability = p })
    unfolding rule_with
    rule_with-written d k tag subtype p sound = rw (
      lookup-tag d k tag subtype p (ground arith),
      lookup-subtype d k tag subtype p (ground arith),
      lookup-share d k tag subtype p,
      share_or_one-of_f64 no_number p (one_only p) (kept p (ground arith)) (ground arith),
      build_rule_sound d k tag subtype p sound,
    )

    rule_from_json-rule_to_json :
        (rule : Rule F)
        → is_sound shares rule ≡ true
        → rule_from_json shares (rule_to_json shares rule) ≡ ok rule
    unfolding rule_from_json rule_to_json rule_from_fields
    rule_from_json-rule_to_json rule sound = rw (
      fields_dict-dict_fields
          (written rule.direction rule.kind rule.tag rule.subtype (share_field rule.probability)),
      read_direction-written rule.direction rule.kind rule.tag rule.subtype rule.probability,
      read_kind-written rule.direction rule.kind rule.tag rule.subtype rule.probability,
      travelling,
      rule_with-written rule.direction rule.kind rule.tag rule.subtype rule.probability sound,
    )
      where
        travelling : travels rule.kind rule.direction ≡ true
        travelling = ground arith

    rules_from-map :
        (i : ℕ) (rules : List (Rule F))
        → All (λ rule. is_sound shares rule ≡ true) rules
        → rules_from shares i (map (rule_to_json shares) rules) ≡ ok rules
    unfolding rules_from
    rules_from-map i [] sound = refl
    rules_from-map i (rule ∷ rules) sound =
        rw (rule_from_json-rule_to_json rule sound.0, rules_from-map (suc i) rules sound.1)

    -- A filter that was read from JSON, written and read again, is the same filter. The share 1 is from 0 to
    -- 1 and equal to no other share; every share from 0 to 1 is a number of JSON that is read as that share,
    -- and null is no number.
    pub from_json-to_json :
        in_unit shares shares.one ≡ true
        → (v : Value T) (filter : Filter F) → from_json shares v ≡ ok filter
        → from_json shares (to_json shares filter) ≡ ok filter
    unfolding from_json to_json
    from_json-to_json h v filter done =
        let (sound, few) = from_json-is_sound shares h v filter done in
        rw (
          items_list-list_items (map (rule_to_json shares) filter.rules),
          length-map filter.rules (rule_to_json shares),
          few_enough few,
          rules_from-map 0 filter.rules sound,
        )
      where
        few_enough : length filter.rules ≤ max_rules → ltb max_rules (length filter.rules) ≡ false
        few_enough few = ground arith

-- ===== src/Room/Filter/Parsed.antt =====
-- crates/pahoa-room/src/filter.rs: what holds of a rule that is read from JSON.
use pahoa.Prelude.{
  ltb, ◌≤◌, subst, ℕ, suc, length, Bool-cases, inl, inr, Bool, true, not, ◌&&◌, Option, none, some,
  is_some, List, [], ◌∷◌, All, String, ◌≡◌, refl, arith, ap,
}
use pahoa.Prelude.Result.{ok, err, ◌>>=◌}
use pahoa.Prelude.Equality.{◌==◌, string_eq}
use pahoa.Prelude.Dict.{Dict, lookup}
use pahoa.Prelude.Text.{format, show}
use pahoa.Json.{Value, null, bool, int, real, text, array, object, fields_dict}
use pahoa.Room.Filter.{
  max_rules, RuleResult, Direction, Kind, Shares, Rule, Filter, filter_kind_eq, travels,
}
use pahoa.Room.Filter.Read.{
  at_rule, rule_list, read_direction, read_kind, wrong_way, require, optional, rule_with,
  build_rule, in_unit, rule_from_fields, rule_from_json, rules_from, from_json, share_or_one,
}

abbrev pub is_text : Option String → Bool
is_text none = true
is_text (some s) = not (s == "")

module _ {T F : Type 0} (shares : Shares T F) where
  -- The rule's message travels its way, its label is of its kind and no empty text, and its share is one
  -- from 0 to 1.
  abbrev pub is_sound : Rule F → Bool
  is_sound rule =
      travels rule.kind rule.direction
      && not (is_some rule.tag && not (rule.kind == Kind.bounce))
      && not (is_some rule.subtype && not (rule.kind == Kind.print_json))
      && is_text rule.tag
      && is_text rule.subtype
      && in_unit shares rule.probability

  share_or_one-in_unit :
      in_unit shares shares.one ≡ true
      → (v : Option (Value T)) (p : F) → share_or_one shares v ≡ ok p
      → in_unit shares p ≡ true
  unfolding share_or_one
  share_or_one-in_unit h v p done = ground arith

  optional-is_text :
      (name : String) (v : Option (Value T)) (label : Option String)
      → optional shares name v ≡ ok label
      → is_text label ≡ true
  unfolding optional
  optional-is_text name v label done = ground arith

  build_rule-is_sound :
      (direction : Direction) (kind : Kind) (tag subtype : Option String) (p : F) (rule : Rule F)
      → travels kind direction ≡ true
      → is_text tag ≡ true
      → is_text subtype ≡ true
      → in_unit shares p ≡ true
      → build_rule direction kind (ok tag) (ok subtype) (ok p) ≡ ok rule
      → is_sound rule ≡ true
  unfolding build_rule
  build_rule-is_sound direction kind tag subtype p rule way tagged named share done = ground arith

  rule_with-is_sound :
      in_unit shares shares.one ≡ true
      → (fields : Dict String (Value T)) (direction : Direction) (kind : Kind) (rule : Rule F)
      → travels kind direction ≡ true
      → rule_with shares fields direction kind ≡ ok rule
      → is_sound rule ≡ true
  unfolding rule_with build_rule
  rule_with-is_sound h fields direction kind rule way done =
      read (optional shares "tag" (lookup "tag" fields))
        (optional shares "subtype" (lookup "subtype" fields))
        (share_or_one shares (lookup "p" fields)) (optional-is_text "tag" (lookup "tag" fields))
        (optional-is_text "subtype" (lookup "subtype" fields))
        (share_or_one-in_unit h (lookup "p" fields)) done
    where
      read :
          (a b : RuleResult (Option String)) (c : RuleResult F)
          → ((label : Option String) → a ≡ ok label → is_text label ≡ true)
          → ((label : Option String) → b ≡ ok label → is_text label ≡ true)
          → ((p : F) → c ≡ ok p → in_unit shares p ≡ true)
          → build_rule direction kind a b c ≡ ok rule
          → is_sound rule ≡ true
      read (ok tag) (ok subtype) (ok p) on_tag on_subtype on_share done =
          build_rule-is_sound direction kind tag subtype p rule way (on_tag tag refl)
            (on_subtype subtype refl) (on_share p refl) done
      read (ok tag) (ok subtype) (err e) on_tag on_subtype on_share done = ground arith
      read (ok tag) (err e) c on_tag on_subtype on_share done = ground arith
      read (err e) b c on_tag on_subtype on_share done = ground arith

  rule_from_fields-is_sound :
      in_unit shares shares.one ≡ true
      → (fields : Dict String (Value T)) (rule : Rule F) → rule_from_fields shares fields ≡ ok rule
      → is_sound rule ≡ true
  unfolding rule_from_fields
  rule_from_fields-is_sound h fields rule done =
      toward (read_direction shares fields) (read_kind shares fields) done
    where
      toward :
          (a : RuleResult Direction) (b : RuleResult Kind)
          → (do
            direction ← a
            kind ← b
            _ ← require (travels kind direction) (wrong_way shares kind direction)
            rule_with shares fields direction kind)
            ≡ ok rule
          → is_sound rule ≡ true
      toward (ok direction) (ok kind) done = elim (Bool-cases (travels kind direction)) [
        | inl way ↦ rule_with-is_sound h fields direction kind rule way (ground arith)
        | inr other ↦ absurd (ground arith)
      ]
      toward (ok direction) (err e) done = absurd (ground arith)
      toward (err e) b done = absurd (ground arith)

  rule_from_json-is_sound :
      in_unit shares shares.one ≡ true
      → (v : Value T) (rule : Rule F) → rule_from_json shares v ≡ ok rule
      → is_sound rule ≡ true
  unfolding rule_from_json
  rule_from_json-is_sound h (object o) rule done =
      rule_from_fields-is_sound h (fields_dict o) rule done
  rule_from_json-is_sound h null rule done = absurd (ground arith)
  rule_from_json-is_sound h (bool b) rule done = absurd (ground arith)
  rule_from_json-is_sound h (int i) rule done = absurd (ground arith)
  rule_from_json-is_sound h (real t) rule done = absurd (ground arith)
  rule_from_json-is_sound h (text t) rule done = absurd (ground arith)
  rule_from_json-is_sound h (array a) rule done = absurd (ground arith)

  rules_from-is_sound :
      in_unit shares shares.one ≡ true
      → (i : ℕ) (vs : List (Value T)) (rules : List (Rule F)) → rules_from shares i vs ≡ ok rules
      → All (λ rule. is_sound rule ≡ true) rules × (length rules ≡ length vs)
  unfolding rules_from
  rules_from-is_sound h i [] rules done =
      subst (λ (rs : List (Rule F)). All (λ rule. is_sound rule ≡ true) rs × (length rs ≡ 0))
        {x = []} (ground arith) (tt, refl)
  rules_from-is_sound h i (v ∷ vs) rules done =
      each (rule_from_json shares v) (rules_from shares (suc i) vs) (rule_from_json-is_sound h v)
        (rules_from-is_sound h (suc i) vs) done
    where
      each :
          (a : RuleResult (Rule F)) (b : RuleResult (List (Rule F)))
          → ((rule : Rule F) → a ≡ ok rule → is_sound rule ≡ true)
          → ((rest : List (Rule F))
              → b ≡ ok rest
              → All (λ rule. is_sound rule ≡ true) rest × (length rest ≡ length vs))
          → (do rule ← at_rule i a; rest ← b; ok (rule ∷ rest)) ≡ ok rules
          → All (λ rule. is_sound rule ≡ true) rules × (length rules ≡ suc (length vs))
      each (ok rule) (ok rest) one others done =
          subst
            (λ (rs : List (Rule F)).
              All (λ rule. is_sound rule ≡ true) rs × (length rs ≡ suc (length vs)))
            {x = rule ∷ rest} (ground arith)
            ((one rule refl, (others rest refl).0), ap suc (others rest refl).1)
      each (ok rule) (err e) one others done = absurd (ground arith)
      each (err e) b one others done = absurd (ground arith)

  -- What a filter read from JSON has: at most so many rules, all sound.
  pub from_json-is_sound :
      in_unit shares shares.one ≡ true
      → (v : Value T) (filter : Filter F) → from_json shares v ≡ ok filter
      → All (λ rule. is_sound rule ≡ true) filter.rules × (length filter.rules ≤ max_rules)
  unfolding from_json
  from_json-is_sound h v filter done = listed (rule_list shares v) done
    where
      listed :
          (a : RuleResult (List (Value T)))
          → (do
            entries ← a
            _ ←
                require (not (ltb max_rules (length entries))) (
                  format
                    ("at most " ∷ show max_rules ∷ " rules, got " ∷ show (length entries) ∷ []))
            rules ← rules_from shares 0 entries
            ok (record { rules = rules }))
            ≡ ok filter
          → All (λ rule. is_sound rule ≡ true) filter.rules × (length filter.rules ≤ max_rules)
      listed (err e) done = absurd (ground arith)
      listed (ok entries) done =
          ended (rules_from shares 0 entries) (rules_from-is_sound h 0 entries) done
        where
          ended :
              (b : RuleResult (List (Rule F)))
              → ((rules : List (Rule F))
                  → b ≡ ok rules
                  → All (λ rule. is_sound rule ≡ true) rules × (length rules ≡ length entries))
              → (do
                _ ← require (not (ltb max_rules (length entries))) (
                    format
                      ("at most " ∷ show max_rules ∷ " rules, got " ∷ show (length entries) ∷ []))
                rules ← b
                ok (record { rules = rules }))
                ≡ ok filter
              → All (λ rule. is_sound rule ≡ true) filter.rules × (length filter.rules ≤ max_rules)
          ended (err e) all done = absurd (ground arith)
          ended (ok rules) all done =
              subst
                (λ (rs : List (Rule F)).
                  All (λ rule. is_sound rule ≡ true) rs × (length rs ≤ max_rules))
                (ground arith) ((all rules refl).0, ground (arith, (all rules refl).1))

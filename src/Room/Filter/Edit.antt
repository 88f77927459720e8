-- ===== src/Room/Filter/Edit.antt =====
-- crates/pahoa-room/src/filter.rs: the edits of a filter's rules.
use pahoa.Prelude.{
  is_some, none, some, ◌≡◌, refl, arith, ℕ, ◌-◌, ◌≤◌, ltb, Bool, ◌||◌, false, Option, List, [], ◌∷◌,
  length, String, if◌then◌else◌,
}
use pahoa.Prelude.Result.{ok, err}
use pahoa.Prelude.Equality.{Eq, pair_eq, option_eq, string_eq}
use pahoa.Prelude.Text.{format, show}
use pahoa.Room.Filter.{
  Direction, Kind, Rule, Filter, RuleResult, direction_eq, filter_kind_eq, max_rules,
}

abbrev pub Matcher : Type 0
Matcher = Direction × (Kind × (Option String × Option String))

unfoldable pub matcher_eq : Eq Matcher
matcher_eq = pair_eq

abbrev pub checked_size : ℕ → RuleResult (Unit {0})
checked_size n =
    if ltb max_rules n
    then err (format ("at most " ∷ show max_rules ∷ " rules, and this would make " ∷ show n ∷ []))
    else ok tt

module _ {F : Type 0} where
  unfoldable pub matcher : Rule F → Matcher
  matcher rule = (rule.direction, (rule.kind, (rule.tag, rule.subtype)))

  abbrev pub same_matcher : Rule F → Rule F → Bool
  same_matcher a b = matcher_eq.beq (matcher a) (matcher b)

  -- The rule takes the place of the first that matches the same messages, or the last place.
  unfoldable pub put_rule : Rule F → List (Rule F) → List (Rule F)
  put_rule rule [] = rule ∷ []
  put_rule rule (existing ∷ rules) =
      let rest = put_rule rule rules in
      if same_matcher existing rule then rule ∷ rules else existing ∷ rest

  unfoldable pub put_rules : List (Rule F) → List (Rule F) → List (Rule F)
  unfolding put_rule
  put_rules [] rules = rules
  put_rules (rule ∷ incoming) rules = put_rules incoming (put_rule rule rules)

  -- A merge that makes too many rules is refused, with the filter changed all the same.
  unfoldable pub merge : List (Rule F) → Filter F → RuleResult (Unit {0}) × Filter F
  unfolding put_rules
  merge incoming filter =
      let rules = put_rules incoming filter.rules in
      (checked_size (length rules), record { rules = rules })

  unfoldable pub any_same : Rule F → List (Rule F) → Bool
  any_same rule [] = false
  any_same rule (m ∷ matchers) = same_matcher m rule || any_same rule matchers

  unfoldable pub without : List (Rule F) → List (Rule F) → List (Rule F)
  unfolding any_same
  without matchers [] = []
  without matchers (rule ∷ rules) =
      let rest = without matchers rules in if any_same rule matchers then rest else rule ∷ rest

  -- How many rules went, and what is left.
  unfoldable pub remove : List (Rule F) → Filter F → ℕ × Filter F
  unfolding without
  remove matchers filter =
      let rules = without matchers filter.rules in
      (length filter.rules - length rules, record { rules = rules })

  -- All rules for the same messages.
  unfoldable pub rules_for : Matcher → List (Rule F) → List (Rule F)
  rules_for m [] = []
  rules_for m (rule ∷ rules) =
      let rest = rules_for m rules in if matcher_eq.beq (matcher rule) m then rule ∷ rest else rest

  -- The last of the rules for the same messages.
  unfoldable pub last_rule : Matcher → List (Rule F) → Option (Rule F)
  last_rule m [] = none
  last_rule m (rule ∷ rules) =
      let later = last_rule m rules in
      if is_some later then later else if matcher_eq.beq (matcher rule) m then some rule else none

  abbrev pub with_last : Option (Rule F) → List (Rule F) → List (Rule F)
  with_last none rules = rules
  with_last (some rule) rules = rule ∷ []

  length-zero : (rules : List (Rule F)) → length rules ≤ 0 → rules ≡ []
  length-zero [] h = refl
  length-zero (rule ∷ rules) h = absurd (omega arith)

  rules_for-put_rule :
      (rule : Rule F) (rules : List (Rule F)) (m : Matcher)
      → length (rules_for m rules) ≤ 1
      → rules_for m (put_rule rule rules)
        ≡ (if matcher_eq.beq (matcher rule) m then rule ∷ [] else rules_for m rules)
  unfolding rules_for put_rule
  rules_for-put_rule rule [] m h = refl
  rules_for-put_rule rule (existing ∷ rules) m h = ground (
    arith,
    matcher_eq.beq_iff (matcher existing) (matcher rule),
    matcher_eq.beq_iff (matcher existing) m,
    matcher_eq.beq_iff (matcher rule) m,
    length-zero (rules_for m rules),
    rules_for-put_rule rule rules m,
  )

  rules_for-put_rules :
      (incoming rules : List (Rule F)) (m : Matcher)
      → length (rules_for m rules) ≤ 1
      → rules_for m (put_rules incoming rules)
        ≡ with_last (last_rule m incoming) (rules_for m rules)
  unfolding put_rules last_rule
  rules_for-put_rules [] rules m h = refl
  rules_for-put_rules (rule ∷ incoming) rules m h =
      ground (
        arith,
        rules_for-put_rules incoming (put_rule rule rules) m,
        rules_for-put_rule rule rules m,
      )

  -- Where a filter has no two rules for some messages, it has no two after a merge, refused or not: its
  -- rules for them are the last of the incoming ones alone, or those that it had where none of the
  -- incoming ones is for them.
  pub rules_for-merge :
      (incoming : List (Rule F)) (filter : Filter F) (m : Matcher)
      → length (rules_for m filter.rules) ≤ 1
      → rules_for m (merge incoming filter).1.rules
        ≡ with_last (last_rule m incoming) (rules_for m filter.rules)
  unfolding merge
  rules_for-merge incoming filter m h = rules_for-put_rules incoming filter.rules m h

  any_same-last_rule :
      (rule : Rule F) (matchers : List (Rule F))
      → any_same rule matchers ≡ is_some (last_rule (matcher rule) matchers)
  unfolding any_same last_rule
  any_same-last_rule rule [] = refl
  any_same-last_rule rule (m ∷ matchers) = ground (arith, any_same-last_rule rule matchers)

  rules_for-without :
      (matchers rules : List (Rule F)) (m : Matcher)
      → rules_for m (without matchers rules)
        ≡ (if is_some (last_rule m matchers) then [] else rules_for m rules)
  unfolding rules_for without
  rules_for-without matchers [] m = ground arith
  rules_for-without matchers (rule ∷ rules) m = ground (
    arith,
    matcher_eq.beq_iff (matcher rule) m,
    any_same-last_rule rule matchers,
    rules_for-without matchers rules m,
  )

  -- After a removal there is no rule for the messages of a given one, and the others stay.
  pub rules_for-remove :
      (matchers : List (Rule F)) (filter : Filter F) (m : Matcher)
      → rules_for m (remove matchers filter).1.rules
        ≡ (if is_some (last_rule m matchers) then [] else rules_for m filter.rules)
  unfolding remove
  rules_for-remove matchers filter m = rules_for-without matchers filter.rules m

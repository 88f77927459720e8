-- ===== src/Room/FilterTests.antt =====
-- A filter at concrete rules, with shares in hundredths.
use pahoa.Prelude.{ℕ, ◌*◌, leb, ltb, eqb, true, Option, some, none, [], ◌∷◌, ◌≡◌, refl, arith}
use pahoa.Prelude.Result.{ok}
use pahoa.Prelude.Int.{pos}
use pahoa.Prelude.Text.{show}
use pahoa.Prelude.Dict.{lookup}
use pahoa.Prelude.Ascii.{to_ascii_lowercase, eq_ignore_ascii_case}
use pahoa.Json.{
  items_list, list_items, fields_dict, dict_fields, Value, int, real, text, null, array_of,
  object_of,
}
use pahoa.Room.Filter.{
  direction_from_text, kind_from_text, travels, Direction, Kind, Shares, Rule, Filter,
}
use pahoa.Room.Filter.Read.{
  rules_from, rule_from_json, rule_from_fields, read_direction, read_kind, text_of, rule_with,
  build_rule, optional, share_or_one, from_json, to_json,
}
use pahoa.Room.Filter.Drops.{specificity, matches, any_label, matching, winner, drops, record_drop}
use pahoa.Room.Filter.Winner.{drops-most_specific}
use pahoa.Room.Filter.Edit.{matcher_eq, matcher, rules_for, last_rule, merge, rules_for-merge}
use pahoa.Room.Filter.Sampler.{IsLive, after_draws, new_sampler, after_draws-IsLive}
use pahoa.Room.Filter.RoundTrip.{from_json-to_json}

abbrev as_share : Value ℕ → Option ℕ
as_share (real n) = some n
as_share (int (pos n)) = some (n * 100)
as_share _ = none

abbrev percents : Shares ℕ ℕ
percents = record {
  zero = 0;
  one = 100;
  leb = leb;
  ltb = ltb;
  eqb = eqb;
  as_f64 = as_share;
  of_f64 = λ n. real n;
  display = show;
  debug = λ s. s;
}

abbrev half_deaths : Rule ℕ
half_deaths = record {
  direction = Direction.to_slot;
  kind = Kind.bounce;
  tag = some "DeathLink";
  subtype = none;
  probability = 50;
}

abbrev all_bounces : Rule ℕ
all_bounces = record {
  direction = Direction.to_slot;
  kind = Kind.bounce;
  tag = none;
  subtype = none;
  probability = 100;
}

abbrev no_deaths : Rule ℕ
no_deaths = record half_deaths { probability = 0 }

abbrev no_bounces : Rule ℕ
no_bounces = record all_bounces { probability = 0 }

abbrev filter_json : Value ℕ
filter_json = array_of (
    object_of (
      ("direction", text "to_slot")
      ∷ ("kind", text "Bounce")
      ∷ ("tag", text "DeathLink")
      ∷ ("p", real 50)
      ∷ [])
    ∷ object_of (("kind", text "bounce") ∷ ("direction", text "TO_SLOT") ∷ ("p", null) ∷ [])
    ∷ [])

abbrev filter : Filter ℕ
filter = record { rules = half_deaths ∷ all_bounces ∷ [] }

abbrev counter : ℕ → ℕ × ℕ
counter s = (s, s)

from_json-to_json_example : from_json percents (to_json percents filter) ≡ ok filter
unfolding from_json items_list list_items lookup fields_dict dict_fields to_ascii_lowercase
    rules_from rule_from_json rule_from_fields read_direction read_kind text_of direction_from_text
    kind_from_text travels rule_with build_rule optional share_or_one
from_json-to_json_example =
    from_json-to_json percents (λ p h. ground arith) (λ p h. refl) refl refl filter_json filter refl

drops-most_specific_example :
    drops percents counter filter (0, 2) Direction.to_slot Kind.bounce ("deathlink" ∷ []) 49 [] ≡ (
      true,
      (
        49,
        record_drop (record { key = (0, 2); direction = Direction.to_slot; kind = Kind.bounce }) [],
      ),
    )
unfolding specificity matches any_label eq_ignore_ascii_case to_ascii_lowercase matching
drops-most_specific_example =
    drops-most_specific percents counter half_deaths [] (all_bounces ∷ []) (0, 2) Direction.to_slot
      Kind.bounce ("deathlink" ∷ []) 49 [] refl tt (ground arith, tt)

rules_for-merge_example :
    rules_for (matcher half_deaths) (merge (no_deaths ∷ []) filter).1.rules ≡ no_deaths ∷ []
unfolding rules_for last_rule matcher_eq matcher
rules_for-merge_example =
    rules_for-merge (no_deaths ∷ []) filter (matcher half_deaths) (omega arith)

-- Two rules for the same messages can be read, and a merge then replaces the first, while the last
-- decides.
abbrev twice_json : Value ℕ
twice_json =
    let bounces = object_of (("direction", text "to_slot") ∷ ("kind", text "bounce") ∷ []) in
    array_of (bounces ∷ bounces ∷ [])

abbrev twice : Filter ℕ
twice = record { rules = all_bounces ∷ all_bounces ∷ [] }

twice_read : from_json percents twice_json ≡ ok twice
unfolding from_json items_list list_items lookup fields_dict dict_fields to_ascii_lowercase
    rules_from rule_from_json rule_from_fields read_direction read_kind text_of direction_from_text
    kind_from_text travels rule_with build_rule optional share_or_one
twice_read = refl

twice_merged :
    winner (merge (no_bounces ∷ []) twice).1.rules Direction.to_slot Kind.bounce []
    ≡ some all_bounces
unfolding merge matcher_eq matcher winner specificity matches matching
twice_merged = refl

after_draws-IsLive_example : IsLive (after_draws (λ (n : ℕ). n) 3 (new_sampler 6))
after_draws-IsLive_example = after_draws-IsLive (λ (n : ℕ). n) 3 6 (ground arith)

-- ===== src/Room/Filter/Drops.antt =====
-- crates/pahoa-room/src/filter.rs: which messages a filter drops, the counters, and the sampler.
use pahoa.Prelude.{
  ℕ, ◌+◌, ◌%◌, ◌^◌, ◌≡◌, ◌↔◌, Bool, true, false, not, ◌&&◌, ◌||◌, ltb, Option, none, some, is_some,
  List, [], ◌∷◌, String, arith, if◌then◌else◌,
}
use pahoa.Prelude.Equality.{Eq, ◌==◌, nat_eq, pair_eq}
use pahoa.Prelude.Dict.{Dict, insert, get_or}
use pahoa.Prelude.Ascii.{eq_ignore_ascii_case}
use pahoa.Room.Hints.{SlotKey}
use pahoa.Room.Filter.{Direction, Kind, Shares, Rule, Filter, direction_eq, filter_kind_eq}

pub record DropKey : Type 0 where
  pub key : SlotKey
  pub direction : Direction
  pub kind : Kind

abbrev pub eqb_drop_key : DropKey → DropKey → Bool
eqb_drop_key a b = a.key == b.key && a.direction == b.direction && a.kind == b.kind

pub eqb_drop_key_iff : (a b : DropKey) → (eqb_drop_key a b ≡ true) ↔ (a ≡ b)
eqb_drop_key_iff a b = ground (
  arith,
  pair_eq.beq_iff a.key b.key,
  direction_eq.beq_iff a.direction b.direction,
  filter_kind_eq.beq_iff a.kind b.kind,
)

instance abbrev pub drop_key_eq : Eq DropKey
drop_key_eq = record { beq = eqb_drop_key; beq_iff = eqb_drop_key_iff }

-- A counter is a `u64`, which wraps.
unfoldable pub record_drop : DropKey → Dict DropKey ℕ → Dict DropKey ℕ
unfolding insert
record_drop key drops = insert key ((get_or drops key 0 + 1) % 2 ^ 64) drops

unfoldable pub total : Direction → Dict DropKey ℕ → ℕ
total direction [] = 0
total direction ((key, count) ∷ drops) =
    let rest = total direction drops in
    if key.direction == direction then (count + rest) % 2 ^ 64 else rest

unfoldable pub dropped_from_slot : Dict DropKey ℕ → ℕ
unfolding total
dropped_from_slot drops = total Direction.from_slot drops

unfoldable pub dropped_to_slot : Dict DropKey ℕ → ℕ
unfolding total
dropped_to_slot drops = total Direction.to_slot drops

unfoldable pub any_label : String → List String → Bool
unfolding eq_ignore_ascii_case
any_label want [] = false
any_label want (got ∷ labels) = eq_ignore_ascii_case got want || any_label want labels

abbrev pub label_matches : Option String → Option String → List String → Bool
label_matches (some want) subtype labels = any_label want labels
label_matches none (some want) labels = any_label want labels
label_matches none none labels = true

module _ {F : Type 0} where
  unfoldable pub specificity : Rule F → ℕ
  specificity rule = if is_some rule.tag || is_some rule.subtype then 1 else 0

  unfoldable pub matches : Rule F → Direction → Kind → List String → Bool
  unfolding any_label
  matches rule direction kind labels =
      if not (rule.direction == direction) || not (rule.kind == kind)
      then false
      else label_matches rule.tag rule.subtype labels

  unfoldable pub matching : List (Rule F) → Direction → Kind → List String → List (Rule F)
  matching [] direction kind labels = []
  matching (rule ∷ rules) direction kind labels =
      let rest = matching rules direction kind labels in
      if matches rule direction kind labels then rule ∷ rest else rest

  -- Of two rules that are equally specific, `max_by_key` takes the later.
  abbrev pub better : Rule F → Rule F → Rule F
  better best rule = if ltb (specificity rule) (specificity best) then best else rule

  unfoldable pub best_of : Rule F → List (Rule F) → Rule F
  best_of best [] = best
  best_of best (rule ∷ rules) = best_of (better best rule) rules

  abbrev pub max_by_specificity : List (Rule F) → Option (Rule F)
  max_by_specificity [] = none
  max_by_specificity (rule ∷ rules) = some (best_of rule rules)

  unfoldable pub winner : List (Rule F) → Direction → Kind → List String → Option (Rule F)
  unfolding matching best_of
  winner rules direction kind labels = max_by_specificity (matching rules direction kind labels)

module _ {T F : Type 0} (shares : Shares T F) {S : Type 0} (roll : S → F × S) where
  -- A rule that drops everything draws no number.
  abbrev pub decide : Option (Rule F) → S → Bool × S
  decide none s = (false, s)
  decide (some rule) s =
      if shares.leb shares.one rule.probability
      then (true, s)
      else (shares.ltb (roll s).0 rule.probability, (roll s).1)

  -- Whether a message is dropped, with the state of `roll` and the counters after it.
  unfoldable pub drops :
      Filter F
      → SlotKey
      → Direction
      → Kind
      → List String
      → S
      → Dict DropKey ℕ
      → Bool × (S × Dict DropKey ℕ)
  unfolding winner record_drop
  drops filter key direction kind labels s counts =
      let dropped = decide (winner filter.rules direction kind labels) s in
      let counted =
        if dropped.0
        then record_drop (record { key = key; direction = direction; kind = kind }) counts
        else counts in
      (dropped.0, (dropped.1, counted))

-- ===== src/Room/Filter.antt =====
-- crates/pahoa-room/src/filter.rs: the rules of a filter.
pub mod Drops
pub mod Edit
pub mod Read
pub mod Parsed
pub mod RoundTrip
pub mod Sampler
pub mod Winner
use pahoa.Prelude.{
  ℕ, zero, suc, Bool, true, false, not, ◌&&◌, ◌||◌, ltb, Option, none, some, is_some, List, [], ◌∷◌,
  ◌++◌, map, length, String, ◌≡◌, ◌↔◌, arith, if◌then◌else◌,
}
use pahoa.Prelude.Result.{Result, ok, err, ◌>>=◌}
use pahoa.Prelude.Equality.{Eq, ◌==◌, string_eq}
use pahoa.Prelude.Dict.{Dict, lookup}
use pahoa.Prelude.Text.{format, show}
use pahoa.Prelude.Ascii.{to_ascii_lowercase}
use pahoa.Json.{Value, null, text, array, object, items_list, fields_dict, array_of, object_of}

pub data Direction : Type 0 where
  from_slot to_slot : Direction

pub data Kind : Type 0 where
  bounce print_json set set_reply retrieved status_update say : Kind

abbrev pub eqb_direction : Direction → Direction → Bool
eqb_direction from_slot from_slot = true
eqb_direction to_slot to_slot = true
eqb_direction _ _ = false

pub eqb_direction_iff : (a b : Direction) → (eqb_direction a b ≡ true) ↔ (a ≡ b)
eqb_direction_iff a b = ground arith

instance abbrev pub direction_eq : Eq Direction
direction_eq = record { beq = eqb_direction; beq_iff = eqb_direction_iff }

abbrev pub eqb_kind : Kind → Kind → Bool
eqb_kind bounce bounce = true
eqb_kind print_json print_json = true
eqb_kind set set = true
eqb_kind set_reply set_reply = true
eqb_kind retrieved retrieved = true
eqb_kind status_update status_update = true
eqb_kind say say = true
eqb_kind _ _ = false

pub eqb_kind_iff : (a b : Kind) → (eqb_kind a b ≡ true) ↔ (a ≡ b)
eqb_kind_iff a b = ground arith

instance abbrev pub filter_kind_eq : Eq Kind
filter_kind_eq = record { beq = eqb_kind; beq_iff = eqb_kind_iff }

unfoldable pub direction_text : Direction → String
direction_text from_slot = "from_slot"
direction_text to_slot = "to_slot"

unfoldable pub direction_from_text : String → Option Direction
unfolding to_ascii_lowercase
direction_from_text s =
    let lowered = to_ascii_lowercase s in
    if lowered == "from_slot"
    then some from_slot
    else if lowered == "to_slot"
    then some to_slot
    else none

unfoldable pub kind_text : Kind → String
kind_text bounce = "bounce"
kind_text print_json = "print_json"
kind_text set = "set"
kind_text set_reply = "set_reply"
kind_text retrieved = "retrieved"
kind_text status_update = "status_update"
kind_text say = "say"

abbrev pub all_kinds : List Kind
all_kinds = bounce ∷ print_json ∷ set ∷ set_reply ∷ retrieved ∷ status_update ∷ say ∷ []

unfoldable pub kind_from_text : String → Option Kind
unfolding to_ascii_lowercase
kind_from_text s =
    let lowered = to_ascii_lowercase s in
    if lowered == "bounce"
    then some bounce
    else if lowered == "print_json"
    then some print_json
    else if lowered == "set"
    then some set
    else if lowered == "set_reply"
    then some set_reply
    else if lowered == "retrieved"
    then some retrieved
    else if lowered == "status_update"
    then some status_update
    else if lowered == "say"
    then some say
    else none

unfoldable pub travels : Kind → Direction → Bool
travels bounce direction = true
travels set direction = direction == from_slot
travels status_update direction = direction == from_slot
travels say direction = direction == from_slot
travels print_json direction = direction == to_slot
travels set_reply direction = direction == to_slot
travels retrieved direction = direction == to_slot

-- What a machine's float is to a rule, and the numbers of JSON that are floats; `debug` writes a text as
-- Rust's `{:?}` does.
pub record Shares (T F : Type 0) : Type 0 where
  pub zero : F
  pub one : F
  pub leb : F → F → Bool
  pub ltb : F → F → Bool
  pub eqb : F → F → Bool
  pub as_f64 : Value T → Option F
  pub of_f64 : F → Value T
  pub display : F → String
  pub debug : String → String

pub record Rule (F : Type 0) : Type 0 where
  pub direction : Direction
  pub kind : Kind
  pub tag : Option String
  pub subtype : Option String
  pub probability : F

pub record Filter (F : Type 0) : Type 0 where
  pub rules : List (Rule F)

abbrev pub max_rules : ℕ
max_rules = 64

abbrev pub RuleResult : Type 0 → Type 0
RuleResult A = Result {0, 0} String A

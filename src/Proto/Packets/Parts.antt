-- ===== src/Proto/Packets/Parts.antt =====
-- crates/pahoa-proto/src/types.rs: the spans of a printed message.
use pahoa.Prelude.{ℕ, Option, none, some, String}
use pahoa.Prelude.Int.{ℤ}
use pahoa.Prelude.Text.{show, show_ℤ}
use pahoa.Multidata.Types.{HintStatus, unspecified, no_priority, avoid, priority, found}

pub record JsonMessagePart : Type 0 where
  pub text : Option String
  pub player : Option ℕ
  pub flags : Option ℕ
  pub hint_status : Option HintStatus
  pub part_type : Option String
  pub color : Option String

unfoldable pub text_part : String → JsonMessagePart
text_part s = record {
  text = some s;
  player = none;
  flags = none;
  hint_status = none;
  part_type = none;
  color = none;
}

unfoldable pub typed_part : String → String → JsonMessagePart
typed_part part_type s = record {
  text = some s;
  player = none;
  flags = none;
  hint_status = none;
  part_type = some part_type;
  color = none;
}

unfoldable pub player_part : ℕ → JsonMessagePart
unfolding typed_part
player_part slot = typed_part "player_id" (show slot)

unfoldable pub item_part : ℤ → ℕ → ℕ → JsonMessagePart
unfolding typed_part
item_part item owner flags = record (typed_part "item_id" (show_ℤ item)) {
  player = some owner;
  flags = some flags;
}

unfoldable pub location_part : ℤ → ℕ → JsonMessagePart
unfolding typed_part
location_part location owner = record (typed_part "location_id" (show_ℤ location)) {
  player = some owner;
}

-- `HintStatus::label`
unfoldable pub label : HintStatus → String
label unspecified = "(unspecified)"
label no_priority = "(no priority)"
label avoid = "(avoid)"
label priority = "(priority)"
label found = "(found)"

unfoldable pub status_part : HintStatus → JsonMessagePart
unfolding typed_part label
status_part status = record (typed_part "hint_status" (label status)) { hint_status = some status }

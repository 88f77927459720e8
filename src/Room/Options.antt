-- ===== src/Room/Options.antt =====
-- crates/pahoa-room/src/options.rs: the settings of a room.
use pahoa.Prelude.{ℕ, Bool, true, Option, none, List, [], ◌∷◌, String, eqb, if◌then◌else◌}
use pahoa.Prelude.Int.{ℤ, pos, ltb_ℤ}
use pahoa.Prelude.Dict.{Dict}
use pahoa.Proto.Packets.Flags.{Permission, auto, goal, enabled}

pub record RoomOptions : Type 0 where
  pub password : Option String
  pub slot_passwords : Option (Dict ℕ String)
  pub server_password : Option String
  pub hint_cost : ℕ
  pub location_check_points : ℕ
  pub release_mode : Permission
  pub collect_mode : Permission
  pub remaining_mode : Permission
  pub countdown_mode : Permission
  pub item_cheat : Bool
  pub compatibility : ℕ
  pub tags : List String

abbrev pub default_options : RoomOptions
default_options = record {
  password = none;
  slot_passwords = none;
  server_password = none;
  hint_cost = 10;
  location_check_points = 1;
  release_mode = auto;
  collect_mode = auto;
  remaining_mode = goal;
  countdown_mode = enabled;
  item_cheat = true;
  compatibility = 2;
  tags = "AP" ∷ [];
}

-- `percent cost total` stands for `(cost as f64 * 0.01 * total as f64) as i64`, in the floating
-- point arithmetic of the machine.
module _ (percent : ℕ → ℕ → ℤ) where
  unfoldable pub hint_cost_for : RoomOptions → ℕ → ℤ
  hint_cost_for options total =
      let raw = percent options.hint_cost total in
      if eqb options.hint_cost 0 then pos 0 else if ltb_ℤ raw (pos 1) then pos 1 else raw

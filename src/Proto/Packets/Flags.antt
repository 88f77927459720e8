-- ===== src/Proto/Packets/Flags.antt =====
-- crates/pahoa-proto/src/types.rs: `Permission` and `ItemsHandling`.
use Prim.Native.Nat.{bit_and}
use pahoa.Prelude.{ℕ, Bool, not, ◌&&◌, eqb, String, if◌then◌else◌}
use pahoa.Prelude.Result.{Result, ok, err}

pub data Permission : Type 0 where
  disabled enabled goal auto auto_enabled : Permission

-- `p as u8`
unfoldable pub permission_bits : Permission → ℕ
permission_bits disabled = 0
permission_bits enabled = 1
permission_bits goal = 2
permission_bits auto = 6
permission_bits auto_enabled = 7

-- `From<u8>`: any other value is `Disabled`.
unfoldable pub permission_from : ℕ → Permission
permission_from v =
    if eqb v 1
    then enabled
    else if eqb v 2
    then goal
    else if eqb v 6
    then auto
    else if eqb v 7
    then auto_enabled
    else disabled

unfoldable pub permission_text : Permission → String
permission_text disabled = "disabled"
permission_text enabled = "enabled"
permission_text goal = "goal"
permission_text auto = "auto"
permission_text auto_enabled = "auto-enabled"

unfoldable pub allows_manual : Permission → Bool
unfolding permission_bits
allows_manual p = not (eqb (bit_and (permission_bits p) 1) 0)

unfoldable pub on_goal : Permission → Bool
unfolding permission_bits
on_goal p = not (eqb (bit_and (permission_bits p) 2) 0)

unfoldable pub is_auto : Permission → Bool
unfolding permission_bits
is_auto p = not (eqb (bit_and (permission_bits p) 4) 0)

pub record ItemsHandling : Type 0 where
  pub bits : ℕ

pub data InvalidItemsHandling : Type 0 where
  invalid_items_handling : InvalidItemsHandling

unfoldable pub handling : ℕ → Result InvalidItemsHandling ItemsHandling
handling bits =
    if eqb (bit_and bits 1) 0 && not (eqb (bit_and bits 6) 0)
    then err invalid_items_handling
    else ok (record { bits = bits })

unfoldable pub no_items : ItemsHandling → Bool
no_items h = eqb (bit_and h.bits 1) 0

unfoldable pub remote_items : ItemsHandling → Bool
remote_items h = not (eqb (bit_and h.bits 2) 0)

unfoldable pub remote_start_inventory : ItemsHandling → Bool
remote_start_inventory h = not (eqb (bit_and h.bits 4) 0)

-- ===== src/Multidata/Statuses.antt =====
-- crates/pahoa-multidata/src/types.rs: the enums as the integers that stand on the wire and in pickles.
use pahoa.Prelude.{ℕ, Bool, true, false, Option, none, some, ◌≡◌, ◌↔◌, arith, if◌then◌else◌}
use pahoa.Prelude.Int.{ℤ, pos}
use pahoa.Prelude.Equality.{◌==◌, int_eq}
use pahoa.Multidata.Types.{
  SlotType, spectator, player, group, ClientStatus, unknown, connected, ready, playing, goal,
  HintStatus, unspecified, no_priority, avoid, priority, found, from_wire,
}

-- The discriminants.
unfoldable pub slot_code : SlotType → ℕ
slot_code spectator = 0
slot_code player = 1
slot_code group = 2

unfoldable pub client_code : ClientStatus → ℕ
client_code unknown = 0
client_code connected = 5
client_code ready = 10
client_code playing = 20
client_code goal = 30

unfoldable pub hint_code : HintStatus → ℕ
hint_code unspecified = 0
hint_code no_priority = 10
hint_code avoid = 20
hint_code priority = 30
hint_code found = 40

-- `SlotType::from_i64`; the error, which has the value and the path, is `none`.
unfoldable pub slot_from_i64 : ℤ → Option SlotType
slot_from_i64 v =
    if v == pos 0
    then some spectator
    else if v == pos 1
    then some player
    else if v == pos 2
    then some group
    else none

unfoldable pub always_goal : SlotType → Bool
always_goal player = false
always_goal _ = true

-- `ClientStatus::from_wire`
unfoldable pub client_from_wire : ℤ → Option ClientStatus
client_from_wire v =
    if v == pos 0
    then some unknown
    else if v == pos 5
    then some connected
    else if v == pos 10
    then some ready
    else if v == pos 20
    then some playing
    else if v == pos 30
    then some goal
    else none

-- An integer reads as a slot type if and only if it is its discriminant.
pub slot_from_i64-slot_code :
    (v : ℤ) (t : SlotType) → (slot_from_i64 v ≡ some t) ↔ (v ≡ pos (slot_code t))
unfolding slot_from_i64 slot_code
slot_from_i64-slot_code v t = ground arith

-- An integer reads as a client status if and only if it is its discriminant.
pub client_from_wire-client_code :
    (v : ℤ) (s : ClientStatus) → (client_from_wire v ≡ some s) ↔ (v ≡ pos (client_code s))
unfolding client_from_wire client_code
client_from_wire-client_code v s = ground arith

-- An integer reads as a hint status if and only if it is its discriminant.
pub from_wire-hint_code :
    (v : ℤ) (s : HintStatus) → (from_wire v ≡ some s) ↔ (v ≡ pos (hint_code s))
unfolding from_wire hint_code
from_wire-hint_code v s = ground arith

-- ===== src/Multidata/Types.antt =====
-- crates/pahoa-multidata/src/types.rs: the values that the room keeps and sends.
use Prim.Native.Nat.{bit_and}
use pahoa.Prelude.{
  ℕ, String, Bool, true, false, not, Option, none, some, List, ◌≡◌, ◌↔◌, ◌&&◌, arith, eqb, ltb,
  ◌||◌, if◌then◌else◌,
}
use pahoa.Prelude.Int.{ℤ, pos}
use pahoa.Prelude.Equality.{Eq, ◌==◌, int_eq, nat_eq, string_eq}

pub data SlotType : Type 0 where
  spectator player group : SlotType

pub data ClientStatus : Type 0 where
  unknown connected ready playing goal : ClientStatus

pub data HintStatus : Type 0 where
  unspecified no_priority avoid priority found : HintStatus

-- `HintStatus::from_wire`
unfoldable pub from_wire : ℤ → Option HintStatus
from_wire v =
    if v == pos 0
    then some unspecified
    else if v == pos 10
    then some no_priority
    else if v == pos 20
    then some avoid
    else if v == pos 30
    then some priority
    else if v == pos 40
    then some found
    else none

abbrev pub trap : ℕ
trap = 4

-- `item_flags::is_trap`
unfoldable pub is_trap : ℕ → Bool
is_trap flags = not (eqb (bit_and flags trap) 0)

pub record Version : Type 0 where
  pub major : ℕ
  pub minor : ℕ
  pub build : ℕ

-- The derived order: the fields in turn.
abbrev pub version_ltb : Version → Version → Bool
version_ltb a b =
    ltb a.major b.major
    || eqb a.major b.major && (ltb a.minor b.minor || eqb a.minor b.minor && ltb a.build b.build)

pub record NetworkSlot : Type 0 where
  pub name : String
  pub game : String
  pub slot_type : SlotType
  pub group_members : List ℕ

pub record NetworkItem : Type 0 where
  pub item : ℤ
  pub location : ℤ
  pub player : ℕ
  pub flags : ℕ

pub record Hint : Type 0 where
  pub receiving_player : ℕ
  pub finding_player : ℕ
  pub location : ℤ
  pub item : ℤ
  pub found : Bool
  pub entrance : String
  pub item_flags : ℕ
  pub status : HintStatus

pub record HintIdentity : Type 0 where
  pub receiving_player : ℕ
  pub finding_player : ℕ
  pub location : ℤ
  pub item : ℤ
  pub entrance : String

unfoldable pub identity : Hint → HintIdentity
identity h = record {
  receiving_player = h.receiving_player;
  finding_player = h.finding_player;
  location = h.location;
  item = h.item;
  entrance = h.entrance;
}

abbrev pub eqb_status : HintStatus → HintStatus → Bool
eqb_status unspecified unspecified = true
eqb_status no_priority no_priority = true
eqb_status avoid avoid = true
eqb_status priority priority = true
eqb_status found found = true
eqb_status _ _ = false

pub eqb_status_iff : (a b : HintStatus) → (eqb_status a b ≡ true) ↔ (a ≡ b)
eqb_status_iff a b = ground arith

instance abbrev pub status_eq : Eq HintStatus
status_eq = record { beq = eqb_status; beq_iff = eqb_status_iff }

unfoldable pub eqb_identity : HintIdentity → HintIdentity → Bool
eqb_identity a b =
    a.receiving_player == b.receiving_player
    && a.finding_player == b.finding_player
    && a.location == b.location
    && a.item == b.item
    && a.entrance == b.entrance

pub eqb_identity_iff : (a b : HintIdentity) → (eqb_identity a b ≡ true) ↔ (a ≡ b)
unfolding eqb_identity
eqb_identity_iff a b = ground (
  arith,
  int_eq.beq_iff a.location b.location,
  int_eq.beq_iff a.item b.item,
  string_eq.beq_iff a.entrance b.entrance,
)

instance abbrev pub identity_eq : Eq HintIdentity
identity_eq = record { beq = eqb_identity; beq_iff = eqb_identity_iff }

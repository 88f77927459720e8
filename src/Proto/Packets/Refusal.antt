-- ===== src/Proto/Packets/Refusal.antt =====
-- crates/pahoa-proto/src/server.rs: why a client is not admitted.
use pahoa.Prelude.{Bool, true, false, ◌≡◌, ◌↔◌, arith}
use pahoa.Prelude.Equality.{Eq}

pub data ConnectionRefusedReason : Type 0 where
  invalid_slot invalid_game incompatible_version invalid_password invalid_items_handling
        slot_locked :
      ConnectionRefusedReason

abbrev pub eqb_reason : ConnectionRefusedReason → ConnectionRefusedReason → Bool
eqb_reason invalid_slot invalid_slot = true
eqb_reason invalid_game invalid_game = true
eqb_reason incompatible_version incompatible_version = true
eqb_reason invalid_password invalid_password = true
eqb_reason invalid_items_handling invalid_items_handling = true
eqb_reason slot_locked slot_locked = true
eqb_reason _ _ = false

pub eqb_reason_iff : (a b : ConnectionRefusedReason) → (eqb_reason a b ≡ true) ↔ (a ≡ b)
eqb_reason_iff a b = ground arith

instance abbrev pub reason_eq : Eq ConnectionRefusedReason
reason_eq = record { beq = eqb_reason; beq_iff = eqb_reason_iff }

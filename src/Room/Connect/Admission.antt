-- ===== src/Room/Connect/Admission.antt =====
-- crates/pahoa-room/src/room.rs: what an admitted client has shown.
use pahoa.Prelude.{
  ℕ, Bool, true, false, not, Option, none, some, List, [], ◌∷◌, ◌++◌, ◌≡◌, refl, sym, ap, arith,
  String, if◌then◌else◌, Bool-cases, inl, inr,
}
use pahoa.Prelude.Equality.{◌==◌, nat_eq, string_eq, pair_eq, contains}
use pahoa.Prelude.Dict.{Dict, lookup}
use pahoa.Prelude.Sorting.{dedup_sorted}
use pahoa.Room.Hints.{SlotKey}
use pahoa.Room.State.{Room}
use pahoa.Room.Secret.{ct_eq_opt, ct_eq_iff}
use pahoa.Room.Connect.{
  Connect, ConnectionRefusedReason, invalid_slot, slot_locked, reason_eq, flat_arg, resolve_name,
  refuse_if, holds_key, slot_password_ok, slot_errors, resolved_errors, connect_errors, refusals,
}

-- A password that is asked for was given, letter for letter.
abbrev pub Shown : Option String → Option String → Type 0
Shown none supplied = Unit
Shown (some expected) supplied = supplied ≡ some expected

-- With a password for each slot in force, the slot has one, and it was given.
abbrev pub ShownFor : Option (Dict ℕ String) → ℕ → Option String → Type 0
ShownFor none slot supplied = Unit
ShownFor (some passwords) slot supplied =
    (expected : String) × (lookup slot passwords ≡ some expected) × (supplied ≡ some expected)

dedup_sorted-nil : (rs : List ConnectionRefusedReason) → dedup_sorted rs ≡ [] → rs ≡ []
unfolding dedup_sorted
dedup_sorted-nil [] h = refl
dedup_sorted-nil (r ∷ []) h = absurd (ground (arith, h))
dedup_sorted-nil (r ∷ s ∷ rs) h = elim (Bool-cases (r == s)) [
  | inl e ↦ ground (arith, e, h, dedup_sorted-nil (s ∷ rs))
  | inr e ↦ absurd (ground (arith, e, h))
]

append-eq-nil : (xs ys : List ConnectionRefusedReason) → xs ++ ys ≡ [] → (xs ≡ []) × (ys ≡ [])
append-eq-nil [] ys h = (refl, h)
append-eq-nil (x ∷ xs) ys h = absurd (ground (arith, h))

-- The first two of five parts.
front2 :
    (a b c d e : List ConnectionRefusedReason) → a ++ b ++ c ++ d ++ e ≡ [] → (a ≡ []) × (b ≡ [])
front2 a b c d e h =
    append-eq-nil a b
      (append-eq-nil (a ++ b) c
        (append-eq-nil (a ++ b ++ c) d (append-eq-nil (a ++ b ++ c ++ d) e h).0).0).0

refuse_if-nil :
    (b : Bool) (reason : ConnectionRefusedReason) → refuse_if (not b) reason ≡ [] → b ≡ true
refuse_if-nil true reason h = refl
refuse_if-nil false reason h = absurd (ground (arith, h))

module _ (as_bytes : String → List ℕ)
    (injective : (s t : String) → as_bytes s ≡ as_bytes t → s ≡ t) where
  ct_eq_opt-Shown :
      (expected supplied : Option String)
      → ct_eq_opt as_bytes expected supplied ≡ true
      → Shown expected supplied
  unfolding ct_eq_opt
  ct_eq_opt-Shown none supplied h = tt
  ct_eq_opt-Shown (some e) none h = absurd (ground (arith, h))
  ct_eq_opt-Shown (some e) (some s) h =
      ap some (sym (injective e s ((ct_eq_iff (as_bytes e) (as_bytes s)).0 h)))

  holds_key-Shown :
      (passwords : Dict ℕ String) (slot : ℕ) (o supplied : Option String)
      → lookup slot passwords ≡ o
      → holds_key as_bytes o supplied ≡ true
      → ShownFor (some passwords) slot supplied
  holds_key-Shown passwords slot none supplied l h = absurd (ground (arith, h))
  holds_key-Shown passwords slot (some e) supplied l h = (e, l, ct_eq_opt-Shown (some e) supplied h)

  slot_password_ok-ShownFor :
      (o : Option (Dict ℕ String)) (slot : ℕ) (supplied : Option String)
      → slot_password_ok as_bytes o slot supplied ≡ true
      → ShownFor o slot supplied
  slot_password_ok-ShownFor none slot supplied h = tt
  slot_password_ok-ShownFor (some passwords) slot supplied h =
      holds_key-Shown passwords slot (lookup slot passwords) supplied refl h

  locked-nil : (b : Bool) → (if b then invalid_slot ∷ slot_locked ∷ [] else []) ≡ [] → b ≡ false
  locked-nil true h = absurd (ground (arith, h))
  locked-nil false h = refl

  abbrev Admitted : Room → Connect → SlotKey → Type 0
  Admitted room args key =
      (contains room.locked_slots key ≡ false)
      × ShownFor room.options.slot_passwords key.1 (flat_arg args.password)

  slot_errors-nil :
      (room : Room) (args : Connect) (key : SlotKey)
      → slot_errors as_bytes room args key ≡ []
      → Admitted room args key
  slot_errors-nil room args key h =
      let lock = if contains room.locked_slots key then invalid_slot ∷ slot_locked ∷ [] else [] in
      let ok =
        slot_password_ok as_bytes room.options.slot_passwords key.1 (flat_arg args.password) in
      let first =
        front2 lock (refuse_if (not ok) ConnectionRefusedReason.invalid_password) _ _ _ h in
      (
        locked-nil (contains room.locked_slots key) first.0,
        slot_password_ok-ShownFor room.options.slot_passwords key.1 (flat_arg args.password)
            (refuse_if-nil ok ConnectionRefusedReason.invalid_password first.1),
      )

  resolved-nil :
      (room : Room) (args : Connect) (o : Option SlotKey)
      → resolved_errors as_bytes room args o ≡ []
      → (key : SlotKey) × (o ≡ some key) × Admitted room args key
  resolved-nil room args none h = absurd (ground (arith, h))
  resolved-nil room args (some key) h = (key, refl, slot_errors-nil room args key h)

  -- Where strings of the same bytes are the same, a client that is not refused has given the name of
  -- a slot that is not locked, the password of the room if it has one, and, with passwords for slots
  -- in force, that of the slot, which has one.
  pub refusals_safe :
      (room : Room) (args : Connect)
      → refusals as_bytes room args ≡ []
      → Shown room.options.password (flat_arg args.password)
        × ((key : SlotKey) × (resolve_name room.seed args.name ≡ some key)
            × ((contains room.locked_slots key ≡ false)
                × ShownFor room.options.slot_passwords key.1 (flat_arg args.password)))
  unfolding refusals connect_errors
  refusals_safe room args h =
      let ok = ct_eq_opt as_bytes room.options.password (flat_arg args.password) in
      let own = resolved_errors as_bytes room args (resolve_name room.seed args.name) in
      let front = refuse_if (not ok) ConnectionRefusedReason.invalid_password in
      let both =
        append-eq-nil front own
          (append-eq-nil (front ++ own) _
            (dedup_sorted-nil (connect_errors as_bytes room args) h)).0 in
      (
        ct_eq_opt-Shown room.options.password (flat_arg args.password)
            (refuse_if-nil ok ConnectionRefusedReason.invalid_password both.0),
        resolved-nil room args (resolve_name room.seed args.name) both.1,
      )

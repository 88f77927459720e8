-- ===== src/Room/Requests/Banked.antt =====
-- crates/pahoa-room/src/room.rs: hints that are announced are remembered.
use pahoa.Prelude.{
  ℕ, Bool, true, false, not, ◌&&◌, ◌||◌, Option, List, [], ◌∷◌, All, ◌≡◌, refl, sym, ap, ◌∙◌, arith,
  subst, if_both, Bool-cases, inl, inr, if◌then◌else◌, leb,
}
use pahoa.Prelude.Int.{ℤ}
use pahoa.Prelude.Equality.{nat_eq, pair_eq, beq_refl}
use pahoa.Prelude.Sorting.{sort_by, All-sort_by, insert_set}
use pahoa.Multidata.Types.{Hint, HintIdentity, identity, identity_eq}
use pahoa.Room.Hints.{SlotKey, HintStore, contains, upsert}
use pahoa.Room.Hints.Store.{contains-upsert}
use pahoa.Room.Hints.Collect.{MultiData}
use pahoa.Room.State.{Room, World, slot_set}
use pahoa.Room.Checks.Frame.{on_changed_hints-room}
use pahoa.Room.Announce.{
  new_only, found_leb, bank_each, bank, bank_all, deliver_hints, on_new_hint, each_new_hint,
  mark_banked, notify_new, notify_hints, concern_all, Concerns,
}

-- What the store has, it has after every step.
bank_each-contains :
    (team : ℕ) (h : Hint) (ps : List ℕ) (store : HintStore) (events : List ℕ) (key : SlotKey)
    (id : HintIdentity)
    → contains store key id ≡ true
    → contains (bank_each team h ps (store, events)).0 key id ≡ true
unfolding bank_each
bank_each-contains team h [] store events key id c = c
bank_each-contains team h (p ∷ ps) store events key id c =
    bank_each-contains team h ps (upsert store (team, p) h).0 (insert_set events p) key id
      (ground (arith, c, contains-upsert store (team, p) key h id))

-- The finder has the hint, or it is one that is not to be remembered.
abbrev pub Banked : ℕ → Bool → HintStore → Hint → Type 0
Banked team persist store h =
    ((h.found && not persist) || contains store (team, h.finding_player) (identity h)) ≡ true

module _ (seed : MultiData) (team : ℕ) (persist : Bool) where
  bank-contains :
      (h : Hint) (store : HintStore) (events : List ℕ) (key : SlotKey) (id : HintIdentity)
      → contains store key id ≡ true
      → contains (bank seed team persist h (store, events)).0 key id ≡ true
  unfolding bank
  bank-contains h store events key id c =
      if_both (λ (s : HintStore × List ℕ). contains s.0 key id ≡ true)
        ((not h.found || persist) && not (contains store (team, h.finding_player) (identity h)))
        (λ e.
          bank_each-contains team h (h.finding_player ∷ slot_set seed h.receiving_player) store
            events key id c)
        (λ e. c)

  bank-Banked :
      (h : Hint) (store : HintStore) (events : List ℕ)
      → Banked team persist (bank seed team persist h (store, events)).0 h
  unfolding bank bank_each
  bank-Banked h store events =
      let key : SlotKey = (team, h.finding_player) in
      if_both (λ (s : HintStore × List ℕ). Banked team persist s.0 h)
        ((not h.found || persist) && not (contains store key (identity h)))
        (λ e. ground (
          arith,
          bank_each-contains team h (slot_set seed h.receiving_player) (upsert store key h).0
              (insert_set events h.finding_player) key (identity h)
              (ground (
                arith,
                contains-upsert store key key h (identity h),
                beq_refl key,
                beq_refl (identity h),
              )),
        ))
        (λ e. ground (arith, e))

  bank_all-contains :
      (hs : List Hint) (s : HintStore × List ℕ) (key : SlotKey) (id : HintIdentity)
      → contains s.0 key id ≡ true
      → contains (bank_all seed team persist hs s).0 key id ≡ true
  unfolding bank_all
  bank_all-contains [] s key id c = c
  bank_all-contains (h ∷ hs) s key id c =
      bank_all-contains hs (bank seed team persist h s) key id (bank-contains h s.0 s.1 key id c)

  bank_all-Banked :
      (hs : List Hint) (s : HintStore × List ℕ)
      → All (Banked team persist (bank_all seed team persist hs s).0) hs
  unfolding bank_all
  bank_all-Banked [] s = tt
  bank_all-Banked (h ∷ hs) s =
      let next = bank seed team persist h s in
      (
        ground (
          arith,
          bank-Banked h s.0 s.1,
          bank_all-contains hs next (team, h.finding_player) (identity h),
        ),
        bank_all-Banked hs next,
      )

deliver_hints-room :
    (team : ℕ) (hints : List Hint) (recipients : Option (List ℕ)) (concerns : Concerns) (w : World)
    → (deliver_hints team hints recipients concerns w).room ≡ w.room
unfolding deliver_hints
deliver_hints-room team hints recipients [] w = refl
deliver_hints-room team hints recipients ((slot, is) ∷ rest) w =
    deliver_hints-room team hints recipients rest _
    ∙ if_both (λ (v : World). v.room ≡ w.room) _ (λ e. refl) (λ e. refl)

-- The hints that were not dropped, and those that the store has.
new_only-All :
    (P : Hint → Type 0) (store : HintStore) (team : ℕ)
    → ((h : Hint) → contains store (team, h.finding_player) (identity h) ≡ true → P h)
    → (hs : List Hint) → All P (new_only store team hs)
    → All P hs
unfolding new_only
new_only-All P store team old [] a = tt
new_only-All P store team old (h ∷ hs) a =
    elim (Bool-cases (contains store (team, h.finding_player) (identity h))) [
      | inl c ↦ (
        old h c,
        new_only-All P store team old hs (
            subst (λ b. All P (if b then new_only store team hs else h ∷ new_only store team hs)) c
              a),
      )
      | inr c ↦
          split
            (subst (λ b. All P (if b then new_only store team hs else h ∷ new_only store team hs)) c
              a)
            (new_only-All P store team old hs)
    ]
  where
    split :
        P h × All P (new_only store team hs)
        → (All P (new_only store team hs) → All P hs)
        → P h × All P hs
    split b f = (b.0, f b.1)

module _ (percent : ℕ → ℕ → ℤ) where
  each_new_hint-room :
      (team : ℕ) (slots : List ℕ) (w : World) → (each_new_hint percent team slots w).room ≡ w.room
  unfolding each_new_hint on_new_hint
  each_new_hint-room team [] w = refl
  each_new_hint-room team (slot ∷ slots) w =
      each_new_hint-room team slots (on_new_hint percent (team, slot) w)
      ∙ on_changed_hints-room (team, slot) w

  mark_banked-room : (events : List ℕ) (w : World) → (mark_banked percent events w).room ≡ w.room
  mark_banked-room [] w = refl
  mark_banked-room (e ∷ es) w = refl

  -- An announcement changes the hints of the room only.
  pub notify_new-room :
      (team : ℕ) (persist : Bool) (recipients : Option (List ℕ)) (hs : List Hint) (w : World)
      → (notify_new percent team persist recipients hs w).room ≡ record w.room {
        hints = (bank_all w.room.seed team persist (sort_by found_leb hs) (w.room.hints, [])).0;
      }
  unfolding notify_new bank_all sort_by
  notify_new-room team persist recipients [] w = refl
  notify_new-room team persist recipients (h ∷ hs) w =
      let hints = sort_by found_leb (h ∷ hs) in
      let banked = bank_all w.room.seed team persist hints (w.room.hints, []) in
      let events = sort_by leb banked.1 in
      let stored = record w { room = record w.room { hints = banked.0 } } in
      let marked = mark_banked percent events stored in
      deliver_hints-room team hints recipients (concern_all w.room.seed 0 hints [])
        (each_new_hint percent team events marked)
      ∙ each_new_hint-room team events marked
      ∙ mark_banked-room events stored

  notify_new-hints :
      (team : ℕ) (persist : Bool) (recipients : Option (List ℕ)) (hs : List Hint) (w : World)
      → (notify_new percent team persist recipients hs w).room.hints
        ≡ (bank_all w.room.seed team persist (sort_by found_leb hs) (w.room.hints, [])).0
  notify_new-hints team persist recipients hs w =
      ap (λ (r : Room). r.hints) (notify_new-room team persist recipients hs w)

  notify_new-Banked :
      (team : ℕ) (persist : Bool) (recipients : Option (List ℕ)) (hs : List Hint) (w : World)
      → All (Banked team persist (notify_new percent team persist recipients hs w).room.hints) hs
  notify_new-Banked team persist recipients hs w =
      All-sort_by found_leb
        (Banked team persist (notify_new percent team persist recipients hs w).room.hints) hs
        (subst (λ (s : HintStore). All (Banked team persist s) (sort_by found_leb hs))
          (sym (notify_new-hints team persist recipients hs w))
          (bank_all-Banked w.room.seed team persist (sort_by found_leb hs) (w.room.hints, [])))

  notify_new-contains :
      (team : ℕ) (persist : Bool) (recipients : Option (List ℕ)) (hs : List Hint) (w : World)
      (h : Hint)
      → contains w.room.hints (team, h.finding_player) (identity h) ≡ true
      → Banked team persist (notify_new percent team persist recipients hs w).room.hints h
  notify_new-contains team persist recipients hs w h c =
      subst (λ (s : HintStore). Banked team persist s h)
        (sym (notify_new-hints team persist recipients hs w))
        (ground (
          arith,
          bank_all-contains w.room.seed team persist (sort_by found_leb hs) (w.room.hints, [])
              (team, h.finding_player) (identity h) c,
        ))

  -- After hints were announced, the list of the finder has each of them, new or not, unless it is
  -- found and found hints are not to be remembered.
  pub notify_hints-Banked :
      (team : ℕ) (hs : List Hint) (only_new persist : Bool) (recipients : Option (List ℕ))
      (w : World)
      → All
          (Banked team persist
            (notify_hints percent team hs only_new persist recipients w).0.room.hints)
          hs
  unfolding notify_hints
  notify_hints-Banked team hs true persist recipients w =
      let kept = new_only w.room.hints team hs in
      new_only-All
        (Banked team persist (notify_new percent team persist recipients kept w).room.hints)
        w.room.hints team (notify_new-contains team persist recipients kept w) hs
        (notify_new-Banked team persist recipients kept w)
  notify_hints-Banked team hs false persist recipients w =
      notify_new-Banked team persist recipients hs w

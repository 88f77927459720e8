-- ===== src/Room/Checks/Frame.antt =====
-- crates/pahoa-room/src/room.rs: which fields of the room the steps of a registration leave as they are.
use pahoa.Prelude.{
  ℕ, Option, none, some, List, [], ◌∷◌, ◌≡◌, refl, sym, ap, ◌∙◌, length, leb, if_both, subst,
}
use pahoa.Prelude.Int.{ℤ}
use pahoa.Prelude.Equality.{nat_eq, pair_eq}
use pahoa.Prelude.Dict.{Dict, lookup, get_or}
use pahoa.Proto.Packets.Flags.{no_items}
use pahoa.Room.Hints.{SlotKey, HintStore, recheck}
use pahoa.Room.Effects.{ConnId}
use pahoa.Room.Client.{Client}
use pahoa.Room.State.{Room, World, is_checked}
use pahoa.Room.Queues.{send_rest, send_rest_of, send_to_conns, send_new_items, items_of}
use pahoa.Room.Checks.{
  on_changed_hints, notify_targets, each_changed, recheck_hints, notify_slot, store_fresh, batch_of,
  apply_fresh,
}

abbrev pub with_clients : Room → Dict ConnId Client → Room
with_clients room clients = record room { clients = clients }

-- The two rooms differ in their clients only.
abbrev pub SameButClients : Room → World → Type 0
SameButClients room w = w.room ≡ with_clients room w.room.clients

send_rest-SameButClients :
    (conn : ConnId) (c : Client) (w : World) → SameButClients w.room (send_rest conn c w)
unfolding send_rest
send_rest-SameButClients conn c w =
    if_both (λ (v : World). SameButClients w.room v) (no_items c.items_handling) (λ e. refl)
      (λ e.
        if_both (λ (v : World). SameButClients w.room v)
          (leb (length (items_of w.room c)) c.send_index) (λ e'. refl) (λ e'. refl))

send_rest_of-SameButClients :
    (conn : ConnId) (c : Option Client) (w : World) → SameButClients w.room (send_rest_of conn w c)
send_rest_of-SameButClients conn none w = refl
send_rest_of-SameButClients conn (some c) w = send_rest-SameButClients conn c w

SameButClients-trans :
    (room : Room) (v w : World)
    → SameButClients room v
    → SameButClients v.room w
    → SameButClients room w
SameButClients-trans room v w h k = k ∙ ap (λ r. with_clients r w.room.clients) h

pub send_to_conns-SameButClients :
    (conns : List ConnId) (w : World) → SameButClients w.room (send_to_conns conns w)
unfolding send_to_conns
send_to_conns-SameButClients [] w = refl
send_to_conns-SameButClients (conn ∷ conns) w =
    let v = send_rest_of conn w (lookup conn w.room.clients) in
    SameButClients-trans w.room v (send_to_conns conns v)
      (send_rest_of-SameButClients conn (lookup conn w.room.clients) w)
      (send_to_conns-SameButClients conns v)

pub send_new_items-SameButClients :
    (slots : List ℕ) (w : World) → SameButClients w.room (send_new_items slots w)
unfolding send_new_items
send_new_items-SameButClients [] w = refl
send_new_items-SameButClients (slot ∷ slots) w =
    let v = send_to_conns (get_or w.room.by_slot (0, slot) []) w in
    SameButClients-trans w.room v (send_new_items slots v)
      (send_to_conns-SameButClients (get_or w.room.by_slot (0, slot) []) w)
      (send_new_items-SameButClients slots v)

notify_targets-room :
    (key : SlotKey) (conns : List ConnId) (w : World) → (notify_targets key conns w).room ≡ w.room
notify_targets-room key [] w = refl
notify_targets-room key (c ∷ cs) w = refl

pub on_changed_hints-room : (key : SlotKey) (w : World) → (on_changed_hints key w).room ≡ w.room
unfolding on_changed_hints
on_changed_hints-room key w = notify_targets-room key _ w

pub each_changed-room : (keys : List SlotKey) (w : World) → (each_changed keys w).room ≡ w.room
unfolding each_changed on_changed_hints
each_changed-room [] w = refl
each_changed-room (key ∷ keys) w =
    each_changed-room keys (on_changed_hints key w) ∙ notify_targets-room key _ w

pub recheck_hints-room :
    (key : SlotKey) (w : World)
    → (recheck_hints key w).room
      ≡ record w.room { hints = (recheck w.room.hints key (is_checked w.room)).0 }
unfolding recheck_hints
recheck_hints-room key w =
    let found = recheck w.room.hints key (is_checked w.room) in
    each_changed-room found.1 (record w { room = record w.room { hints = found.0 } })

abbrev with_hints : Room → HintStore → Room
with_hints room hints = record room { hints = hints }

abbrev with_deliveries : Room → Dict ConnId Client → HintStore → Room
with_deliveries room clients hints = record room { clients = clients; hints = hints }

-- The two rooms differ in their clients and their hints only.
abbrev pub SameButDeliveries : Room → World → Type 0
SameButDeliveries room w = w.room ≡ with_deliveries room w.room.clients w.room.hints

module _ (percent : ℕ → ℕ → ℤ) where
  notify_slot-room :
      (key : SlotKey) (fresh : List ℤ) (conns : List ConnId) (w : World)
      → (notify_slot percent key fresh conns w).room ≡ w.room
  notify_slot-room key fresh [] w = refl
  notify_slot-room key fresh (c ∷ cs) w = refl

  -- After the writes of the checks, the delivery of items and the messages change no other field.
  pub apply_fresh-SameButDeliveries :
      (key : SlotKey) (l : ℤ) (ls : List ℤ) (w : World)
      → SameButDeliveries (store_fresh key (l ∷ ls) w).room (apply_fresh percent key (l ∷ ls) w)
  unfolding apply_fresh
  apply_fresh-SameButDeliveries key l ls w =
      let stored = store_fresh key (l ∷ ls) w in
      let sent = send_new_items (batch_of w.room key (l ∷ ls)).dirty_slots stored in
      let told = notify_slot percent key (l ∷ ls) (get_or sent.room.by_slot key []) sent in
      let same : SameButClients stored.room told =
        subst (λ (r : Room). r ≡ with_clients stored.room r.clients)
          (sym (notify_slot-room key (l ∷ ls) (get_or sent.room.by_slot key []) sent))
          (send_new_items-SameButClients (batch_of w.room key (l ∷ ls)).dirty_slots stored) in
      subst (λ (r : Room). r ≡ with_deliveries stored.room r.clients r.hints)
        (sym (recheck_hints-room key told))
        (ap (λ (r : Room). with_hints r (recheck told.room.hints key (is_checked told.room)).0)
          same)

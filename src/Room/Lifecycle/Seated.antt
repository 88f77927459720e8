-- ===== src/Room/Lifecycle/Seated.antt =====
-- crates/pahoa-room/src/room.rs: the index of connections after a client was let in.
use pahoa.Prelude.{
  ℕ, Bool, true, false, ◌&&◌, ◌||◌, Bool-cases, inl, inr, if_both, Option, none, some, List, [],
  ◌∷◌, String, ◌≡◌, refl, sym, ap, subst, ◌∙◌, arith, if◌then◌else◌,
}
use pahoa.Prelude.Int.{ℤ}
use pahoa.Prelude.Equality.{◌==◌, nat_eq, pair_eq}
use pahoa.Prelude.Dict.{Dict, lookup, lookup-insert}
use pahoa.Multidata.Types.{NetworkItem}
use pahoa.Proto.Packets.Flags.{ItemsHandling}
use pahoa.Proto.Packets.Refusal.{ConnectionRefusedReason}
use pahoa.Room.Hints.{SlotKey}
use pahoa.Room.Effects.{ConnId}
use pahoa.Room.Client.{Client, apply_tags}
use pahoa.Room.State.{Room, World}
use pahoa.Room.Messages.{bad_arguments}
use pahoa.Room.Connect.{Connect, refusals, resolve_name}
use pahoa.Room.Lifecycle.Join.{
  take_seat, seat, handle_connect, take_in, take_in_resolved, answer_connect, set_client,
  advance_index, first_items, flags_of, is_bad, is_missing,
}
use pahoa.Room.Lifecycle.Indexed.{IsIndexed, Agrees, is_member, sits_at, seated-Agrees}
use pahoa.Room.Lifecycle.Kept.{room-push_filter, room-announce_join}

by_slot-set_client :
    (room : Room) (conn : ConnId) (change : Client → Client)
    → (set_client conn change room).by_slot ≡ room.by_slot
by_slot-set_client room conn change = ground arith

lookup-set_client :
    (room : Room) (conn j : ConnId) (change : Client → Client) (client : Client)
    → lookup conn room.clients ≡ some client
    → lookup j (set_client conn change room).clients
      ≡ (if conn == j then some (change client) else lookup j room.clients)
lookup-set_client room conn j change client h =
    rw (h, lookup-insert j conn (change client) room.clients)

sits_at-advance_index :
    (items : List NetworkItem) (client : Client) (key : SlotKey)
    → sits_at (some (advance_index items client)) key ≡ sits_at (some client) key
sits_at-advance_index [] client key = refl
sits_at-advance_index (i ∷ is) client key = refl

-- The fields of a client at its seat.
sits_at-seat :
    (key : SlotKey) (args : Connect) (flags : ItemsHandling) (client : Client) (k : SlotKey)
    → sits_at (some (record (seat key args flags client) { auth = true })) k ≡ (key == k)
unfolding seat apply_tags
sits_at-seat key args flags client k = refl

lookup-take_seat :
    (room : Room) (conn j : ConnId) (key : SlotKey) (args : Connect) (flags : ItemsHandling)
    (client : Client)
    → lookup j (take_seat conn key args flags client room).clients
      ≡ (if conn == j then some (seat key args flags client) else lookup j room.clients)
unfolding take_seat
lookup-take_seat room conn j key args flags client =
    lookup-insert j conn (seat key args flags client) room.clients

-- Whoever else is at a slot stays there.
abbrev pub IsSeated : ConnId → SlotKey → Room → Room → Type 0
IsSeated conn key before after =
    (j : ConnId) (k : SlotKey)
    → is_member after.clients j k ≡ (if conn == j then key == k else is_member before.clients j k)

seated-IsIndexed :
    (room after : Room) (conn : ConnId) (key : SlotKey) (args : Connect) (flags : ItemsHandling)
    (client : Client)
    → lookup conn room.clients ≡ some client
    → IsIndexed room
    → after.by_slot ≡ (take_seat conn key args flags client room).by_slot
    → IsSeated conn key room after
    → IsIndexed after
unfolding take_seat
seated-IsIndexed room after conn key args flags client here indexed same members =
    subst (λ (b : Dict SlotKey (List ConnId)). Agrees b after.clients) (sym same)
      (seated-Agrees room.by_slot room.clients after.clients conn client key here indexed members)

-- The client that has taken its seat.
seated-here :
    (room : Room) (conn : ConnId) (key : SlotKey) (args : Connect) (flags : ItemsHandling)
    (client : Client)
    → lookup conn (take_seat conn key args flags client room).clients
      ≡ some (seat key args flags client)
seated-here room conn key args flags client =
    ground (arith, nat_eq.beq_iff conn conn, lookup-take_seat room conn conn key args flags client)

-- After a change of the client at its seat that leaves it authenticated there.
change-IsSeated :
    (room : Room) (conn : ConnId) (key : SlotKey) (args : Connect) (flags : ItemsHandling)
    (client : Client) (change : Client → Client)
    → ((k : SlotKey) → sits_at (some (change (seat key args flags client))) k ≡ (key == k))
    → IsSeated conn key room (set_client conn change (take_seat conn key args flags client room))
unfolding is_member
change-IsSeated room conn key args flags client change on j k =
    ap (λ (c : Option Client). sits_at c k)
      (lookup-set_client (take_seat conn key args flags client room) conn j change
        (seat key args flags client) (seated-here room conn key args flags client))
    ∙ elim (Bool-cases (conn == j)) [
      | inl same ↦ ground (arith, on k)
      | inr other ↦ ground (arith, lookup-take_seat room conn j key args flags client)
    ]

-- Two changes of one client are one.
lookup-set_client-set_client :
    (room : Room) (conn j : ConnId) (f g : Client → Client) (client : Client)
    → lookup conn room.clients ≡ some client
    → lookup j (set_client conn g (set_client conn f room)).clients
      ≡ lookup j (set_client conn (λ c. g (f c)) room).clients
lookup-set_client-set_client room conn j f g client here =
    lookup-set_client (set_client conn f room) conn j g (f client)
      (lookup-set_client room conn conn f client here ∙ ground (arith, nat_eq.beq_iff conn conn))
    ∙ (ground (arith, lookup-set_client room conn j f client here)
        ∙ sym (lookup-set_client room conn j (λ c. g (f c)) client here))

-- A client that has been authenticated at its seat.
entered_at :
    (key : SlotKey) (args : Connect) (flags : ItemsHandling) (client : Client)
    (items : List NetworkItem) (k : SlotKey)
    → sits_at (some (record (advance_index items (seat key args flags client)) { auth = true })) k
      ≡ (key == k)
unfolding seat apply_tags
entered_at key args flags client [] k = refl
entered_at key args flags client (i ∷ is) k = refl

-- A client that was authenticated at its seat before.
stays_at :
    (key : SlotKey) (args : Connect) (flags : ItemsHandling) (client : Client)
    (items : List NetworkItem) (k : SlotKey)
    → (seat key args flags client).auth ≡ true
    → sits_at (some (advance_index items (seat key args flags client))) k ≡ (key == k)
unfolding seat apply_tags
stays_at key args flags client items k on =
    sits_at-advance_index items (seat key args flags client) k
    ∙ ap (λ (a : Bool). a && ((key.0, key.1) == k)) on

module _ (as_bytes : String → List ℕ) (slot_data : ℕ → Option String) (percent : ℕ → ℕ → ℤ) where
  admitted-IsSeated :
      (w : World) (conn : ConnId) (key : SlotKey) (args : Connect) (flags : ItemsHandling)
      (client : Client)
      → IsSeated conn key w.room
          (take_in as_bytes slot_data percent conn key args flags client w).room
  unfolding take_in is_member
  admitted-IsSeated w conn key args flags client =
      if_both (λ (t : World). IsSeated conn key w.room t.room) (seat key args flags client).auth
        (λ on.
          change-IsSeated w.room conn key args flags client (advance_index items)
            (λ k. stays_at key args flags client items k on))
        (λ off.
          subst (IsSeated conn key w.room)
            (sym (room-announce_join conn _ ∙ room-push_filter conn _))
            (λ j k.
              ap (λ (c : Option Client). sits_at c k)
                (lookup-set_client-set_client seated conn j (advance_index items) authenticate
                  (seat key args flags client) (seated-here w.room conn key args flags client))
              ∙ change-IsSeated w.room conn key args flags client
                  (λ (c : Client). authenticate (advance_index items c))
                  (entered_at key args flags client items) j k))
    where
      seated : Room
      seated = take_seat conn key args flags client w.room

      items : List NetworkItem
      items = first_items seated conn (seat key args flags client)

      authenticate : Client → Client
      authenticate c = record c { auth = true }

  by_slot-take_in :
      (w : World) (conn : ConnId) (key : SlotKey) (args : Connect) (flags : ItemsHandling)
      (client : Client)
      → (take_in as_bytes slot_data percent conn key args flags client w).room.by_slot
        ≡ (take_seat conn key args flags client w.room).by_slot
  unfolding take_in
  by_slot-take_in w conn key args flags client =
      if_both (λ (t : World). t.room.by_slot ≡ seated.by_slot) (seat key args flags client).auth
        (λ on. by_slot-set_client seated conn (advance_index items))
        (λ off.
          subst (λ (r : Room). r.by_slot ≡ seated.by_slot)
            (sym (room-announce_join conn _ ∙ room-push_filter conn _))
            (by_slot-set_client (set_client conn (advance_index items) seated) conn
                (λ (c : Client). record c { auth = true })
              ∙ by_slot-set_client seated conn (advance_index items)))
    where
      seated : Room
      seated = take_seat conn key args flags client w.room

      items : List NetworkItem
      items = first_items seated conn (seat key args flags client)

  admitted-IsIndexed :
      (w : World) (conn : ConnId) (key : SlotKey) (args : Connect) (flags : ItemsHandling)
      (client : Client)
      → lookup conn w.room.clients ≡ some client
      → IsIndexed w.room
      → IsIndexed (take_in as_bytes slot_data percent conn key args flags client w).room
  admitted-IsIndexed w conn key args flags client here indexed =
      seated-IsIndexed w.room (take_in as_bytes slot_data percent conn key args flags client w).room
        conn key args flags client here indexed (by_slot-take_in w conn key args flags client)
        (admitted-IsSeated w conn key args flags client)

  -- A registered client whose Connect has a password, or null for none, and a game, and that there is
  -- no reason to refuse, is authenticated to the slot of its name and to no other slot, and every other
  -- connection stays where it was.
  pub handle_connect-IsSeated :
      (w : World) (conn : ConnId) (key : SlotKey) (args : Connect) (client : Client)
      → lookup conn w.room.clients ≡ some client
      → (is_bad args.password || is_missing args.game) ≡ false
      → refusals as_bytes w.room args ≡ []
      → resolve_name w.room.seed args.name ≡ some key
      → IsSeated conn key w.room (handle_connect as_bytes slot_data percent conn args w).room
  unfolding handle_connect
  handle_connect-IsSeated w conn key args client here fine admitted named =
      rw (fine, admitted, named, here)
        (admitted-IsSeated w conn key args (flags_of as_bytes slot_data percent args.items_handling)
          client)

  pub asked-IsIndexed :
      (w : World) (conn : ConnId) (args : Connect)
      → IsIndexed w.room
      → IsIndexed (handle_connect as_bytes slot_data percent conn args w).room
  unfolding handle_connect bad_arguments
  asked-IsIndexed w conn args indexed =
      if_both (λ (t : World). IsIndexed t.room) (is_bad args.password || is_missing args.game)
        (λ bad. indexed) (λ fine. answered (refusals as_bytes w.room args))
    where
      found :
          (key : Option SlotKey) (client : Option Client)
          → lookup conn w.room.clients ≡ client
          → IsIndexed (take_in_resolved as_bytes slot_data percent conn args key client w).room
      found (some key) (some client) here =
          admitted-IsIndexed w conn key args
            (flags_of as_bytes slot_data percent args.items_handling) client here indexed
      found (some key) none here = indexed
      found none client here = indexed

      answered :
          (errors : List ConnectionRefusedReason)
          → IsIndexed (answer_connect as_bytes slot_data percent conn args errors w).room
      answered [] = found (resolve_name w.room.seed args.name) (lookup conn w.room.clients) refl
      answered (e ∷ es) = indexed

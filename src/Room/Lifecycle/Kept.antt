-- ===== src/Room/Lifecycle/Kept.antt =====
-- crates/pahoa-room/src/room.rs: the index of connections is kept by all that happens to them.
use pahoa.Prelude.{
  eqb, if_both, length, Bool, true, false, Option, none, some, List, String, ◌≡◌, refl, sym, ap,
  subst, ◌∙◌, arith, if◌then◌else◌,
}
use pahoa.Prelude.Equality.{◌==◌, nat_eq, pair_eq, option_eq}
use pahoa.Prelude.Result.{Result, ok, err}
use pahoa.Prelude.Dict.{Dict, lookup, insert, erase}
use pahoa.Proto.Packets.Flags.{InvalidItemsHandling, ItemsHandling, no_items}
use pahoa.Room.Hints.{SlotKey}
use pahoa.Room.Effects.{ConnId}
use pahoa.Room.Client.{Client, FeedPolicy, with_feed, apply_tags}
use pahoa.Room.State.{Room, World}
use pahoa.Room.Tags.{same_tag_set}
use pahoa.Room.Queues.{items_for}
use pahoa.Room.Lifecycle.{on_connect_with_feed, drop_conn, push_filter}
use pahoa.Room.Messages.{bad_arguments}
use pahoa.Room.Lifecycle.Leave.{
  disconnect_found, on_disconnect, leave, forget, reset_status, clear_admin, slot_empty,
  unsubscribe, say_goodbye,
}
use pahoa.Room.Lifecycle.Join.{change_found, set_client, announce_join}
use pahoa.Room.Lifecycle.Update.{
  flags_asked, update_client, update_registered, ConnectUpdate, handle_connect_update, resend_to,
  resend_all_items, retag, announce_tags_changed,
}
use pahoa.Room.Lifecycle.Indexed.{
  IsIndexed, Agrees, is_member, sits_at, is_member-insert, insert-Agrees, left-Agrees,
}

pub sits-is_member :
    (clients : Dict ConnId Client) (conn : ConnId) (client : Client) (key : SlotKey)
    → lookup conn clients ≡ some client
    → sits_at (some client) key ≡ is_member clients conn key
unfolding is_member
sits-is_member clients conn client key h = ap (λ (c : Option Client). sits_at c key) (sym h)

nobody-is_member :
    (clients : Dict ConnId Client) (conn : ConnId) (key : SlotKey)
    → lookup conn clients ≡ none
    → false ≡ is_member clients conn key
unfolding is_member
nobody-is_member clients conn key h = ap (λ (c : Option Client). sits_at c key) (sym h)

pub opened-IsIndexed :
    (w : World) (conn : ConnId) (feed : FeedPolicy)
    → lookup conn w.room.clients ≡ none
    → IsIndexed w.room
    → IsIndexed (on_connect_with_feed conn feed w).room
unfolding on_connect_with_feed with_feed
opened-IsIndexed w conn feed new indexed =
    insert-Agrees w.room.by_slot w.room.clients conn (with_feed conn feed) outside indexed
  where
    outside :
        (key : SlotKey)
        → sits_at (some (with_feed conn feed)) key ≡ is_member w.room.clients conn key
    outside key = nobody-is_member w.room.clients conn key new

-- What is said changes no room.
pub room-push_filter : (conn : ConnId) (w : World) → (push_filter conn w).room ≡ w.room
unfolding push_filter
room-push_filter conn w = ground arith

pub room-announce_join : (conn : ConnId) (w : World) → (announce_join conn w).room ≡ w.room
unfolding announce_join
room-announce_join conn w = ground arith

room-announce_tags_changed :
    (conn : ConnId) (key : SlotKey) (from to : List String) (w : World)
    → (announce_tags_changed conn key from to w).room ≡ w.room
unfolding announce_tags_changed
room-announce_tags_changed conn key from to w = ground arith

set_client-IsIndexed :
    (room : Room) (conn : ConnId) (change : Client → Client)
    → ((c : Client) (key : SlotKey) → sits_at (some (change c)) key ≡ sits_at (some c) key)
    → IsIndexed room
    → IsIndexed (set_client conn change room)
set_client-IsIndexed room conn change same indexed = by_found (lookup conn room.clients) refl
  where
    by_found :
        (found : Option Client)
        → lookup conn room.clients ≡ found
        → IsIndexed (change_found conn change found room)
    by_found none h = indexed
    by_found (some client) h =
        insert-Agrees room.by_slot room.clients conn (change client)
          (λ key. same client key ∙ sits-is_member room.clients conn client key h) indexed

pub resent-IsIndexed :
    (w : World) (conn : ConnId) → IsIndexed w.room → IsIndexed (resend_all_items conn w).room
unfolding resend_all_items
resent-IsIndexed w conn indexed = by_found (lookup conn w.room.clients)
  where
    by_found : (found : Option Client) → IsIndexed (resend_to conn found w).room
    by_found none = indexed
    by_found (some client) =
        if_both (λ (t : World). IsIndexed t.room) (no_items client.items_handling) (λ b. indexed)
          (λ b.
            set_client-IsIndexed w.room conn
              (λ (c : Client). record c { send_index = length (items_for w.room conn) })
              (λ c key. refl) indexed)

retagged-IsIndexed :
    (w : World) (conn : ConnId) (client : Client) (tags : Option (List String))
    → ((key : SlotKey) → sits_at (some client) key ≡ is_member w.room.clients conn key)
    → IsIndexed w.room
    → IsIndexed (retag conn client tags w).room
unfolding retag apply_tags
retagged-IsIndexed w conn client none here indexed = indexed
retagged-IsIndexed w conn client (some tags) here indexed =
    if_both (λ (t : World). IsIndexed t.room) (same_tag_set tags client.tags) (λ b. tagged)
      (λ b.
        subst IsIndexed
          (sym (room-announce_tags_changed conn (client.team, client.slot) client.tags tags _))
          tagged)
  where
    tagged : Agrees w.room.by_slot (insert conn (apply_tags client tags) w.room.clients)
    tagged = insert-Agrees w.room.by_slot w.room.clients conn (apply_tags client tags) here indexed

pub updated-IsIndexed :
    (w : World) (conn : ConnId) (args : ConnectUpdate)
    → IsIndexed w.room
    → IsIndexed (handle_connect_update conn args w).room
unfolding handle_connect_update bad_arguments
updated-IsIndexed w conn args indexed = by_found (lookup conn w.room.clients) refl
  where
    by_flags :
        (client : Client) (asked : Option (Result InvalidItemsHandling ItemsHandling))
        → ((key : SlotKey) → sits_at (some client) key ≡ is_member w.room.clients conn key)
        → IsIndexed (update_client conn client asked args.tags w).room
    by_flags client none here = retagged-IsIndexed w conn client args.tags here indexed
    by_flags client (some (err e)) here = indexed
    by_flags client (some (ok flags)) here =
        let changed : Client = record client { items_handling = flags } in
        let flagged : World = record w {
          room = record w.room { clients = insert conn changed w.room.clients };
        } in
        if_both (λ (t : World). IsIndexed t.room) (eqb flags.bits client.items_handling.bits)
          (λ same. retagged-IsIndexed w conn client args.tags here indexed)
          (λ other. resent-IsIndexed (retag conn changed args.tags flagged) conn (
            retagged-IsIndexed flagged conn changed args.tags
              (λ key. ground (
                arith,
                nat_eq.beq_iff conn conn,
                is_member-insert w.room.clients conn conn changed key,
              ))
              (insert-Agrees w.room.by_slot w.room.clients conn changed here indexed)))

    by_found :
        (found : Option Client)
        → lookup conn w.room.clients ≡ found
        → IsIndexed (update_registered conn args found w).room
    by_found none h = indexed
    by_found (some client) h =
        by_flags client (flags_asked args.items_handling)
          (λ key. sits-is_member w.room.clients conn client key h)

-- The status of a slot and the goodbye touch neither lists nor clients.
left-IsIndexed :
    (w : World) (conn : ConnId) (client : Client) (reason : String)
    → lookup conn w.room.clients ≡ some client
    → IsIndexed w.room
    → IsIndexed (disconnect_found conn reason (some client) w).room
unfolding leave forget reset_status say_goodbye
left-IsIndexed w conn client reason here indexed =
    if_both (λ (t : World). IsIndexed t.room) client.auth
      (λ on.
        if_both IsIndexed (slot_empty forgotten key) (λ empty. agreed true on)
          (λ others. agreed true on))
      (λ off. agreed false off)
  where
    key : SlotKey
    key = (client.team, client.slot)

    forgotten : Room
    forgotten = record w.room {
      clients = erase conn w.room.clients;
      by_slot = drop_conn key conn w.room.by_slot;
      stored_data_subscriptions = unsubscribe conn w.room.stored_data_subscriptions;
    }

    agreed :
        (auth : Bool)
        → client.auth ≡ auth
        → Agrees
            (if auth then drop_conn key conn w.room.by_slot else w.room.by_slot)
            (erase conn w.room.clients)
    agreed auth is =
        subst
          (λ (a : Bool).
            Agrees (if a then drop_conn key conn w.room.by_slot else w.room.by_slot)
              (erase conn w.room.clients))
          is (left-Agrees w.room.by_slot w.room.clients conn client here indexed)

pub ended-IsIndexed :
    (w : World) (conn : ConnId) (reason : String)
    → IsIndexed w.room
    → IsIndexed (on_disconnect conn reason w).room
unfolding on_disconnect
ended-IsIndexed w conn reason indexed = by_found (lookup conn w.room.clients) refl
  where
    cleared : World
    cleared = record w { room = clear_admin conn w.room }

    clients-cleared : cleared.room.clients ≡ w.room.clients
    clients-cleared = ground arith

    cleared-IsIndexed : IsIndexed cleared.room
    cleared-IsIndexed =
        if_both IsIndexed (w.room.admin_conn == some conn) (λ admin. indexed) (λ other. indexed)

    by_found :
        (found : Option Client)
        → lookup conn w.room.clients ≡ found
        → IsIndexed (disconnect_found conn reason found cleared).room
    by_found none h = cleared-IsIndexed
    by_found (some client) h =
        left-IsIndexed cleared conn client reason
          (ap (λ (d : Dict ConnId Client). lookup conn d) clients-cleared ∙ h) cleared-IsIndexed

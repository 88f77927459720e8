-- ===== src/Room/Queues/Served.antt =====
-- crates/pahoa-room/src/room.rs: the delivery of new items to the connections of some slots.
use pahoa.Prelude.{
  ℕ, true, false, Option, none, some, List, [], ◌∷◌, length, ◌≡◌, refl, sym, ap, ◌∙◌, arith, leb,
  leb→le, if_both, Bool-cases, inl, inr, subst,
}
use pahoa.Prelude.Equality.{◌==◌, nat_eq, pair_eq, contains}
use pahoa.Prelude.Dict.{Dict, lookup, get_or}
use pahoa.Proto.Packets.Flags.{no_items}
use pahoa.Room.Effects.{ConnId}
use pahoa.Room.Hints.{SlotKey}
use pahoa.Room.Client.{Client}
use pahoa.Room.State.{Room, World}
use pahoa.Room.Queues.{items_of, send_rest, send_rest_of, send_to_conns, send_new_items}
use pahoa.Room.Queues.Delivery.{
  IsDelivered, IsCaughtUp, inventory, served, take-all, some_inj, served-IsDelivered,
  served-IsCaughtUp, served_other-IsDelivered, served_other-IsCaughtUp,
}
use pahoa.Room.Checks.Frame.{send_to_conns-SameButClients}

-- What holds of each client before holds of it after.
abbrev Kept : World → World → Type 0
Kept w v =
    (other : ConnId)
    → IsDelivered other w
    → IsDelivered other v × (IsCaughtUp other w → IsCaughtUp other v)

abbrev Served : ConnId → World → World → Type 0
Served conn w v = IsDelivered conn w → IsCaughtUp conn v

Kept-refl : (w : World) → Kept w w
Kept-refl w other d = (d, λ u. u)

Kept-trans : (u v w : World) → Kept u v → Kept v w → Kept u w
Kept-trans u v w h k other d =
    ((k other (h other d).0).0, λ c. (k other (h other d).0).1 ((h other d).1 c))

module _ (conn : ConnId) (c : Client) (w : World) (here : lookup conn w.room.clients ≡ some c) where
  served-Kept : Kept w (served conn c w here)
  served-Kept other d = elim (Bool-cases (conn == other)) [
    | inl e ↦
        subst
          (λ k.
            IsDelivered k w
            → IsDelivered k (served conn c w here)
              × (IsCaughtUp k w → IsCaughtUp k (served conn c w here)))
          ((nat_eq.beq_iff conn other).0 e)
          (λ d'. (served-IsDelivered conn c w here d', λ u. served-IsCaughtUp conn c w here d')) d
    | inr e ↦ (
      served_other-IsDelivered conn c w here other e d,
      served_other-IsCaughtUp conn c w here other e,
    )
  ]

  send_rest-Kept : Kept w (send_rest conn c w)
  unfolding send_rest
  send_rest-Kept =
      if_both (λ (v : World). Kept w v) (no_items c.items_handling) (λ e. Kept-refl w)
        (λ e.
          if_both (λ (v : World). Kept w v) (leb (length (items_of w.room c)) c.send_index)
            (λ e'. Kept-refl w) (λ e'. served-Kept))

  -- No items to send, or none left.
  unserved : no_items c.items_handling ≡ true → Served conn w w
  unserved e d a h n =
      let same : c ≡ a = some_inj c a (sym here ∙ h) in
      absurd (ground (arith, e, n, ap (λ (x : Client). no_items x.items_handling) same))

  none_left : leb (length (items_of w.room c)) c.send_index ≡ true → Served conn w w
  none_left e d a h n =
      subst (λ (x : Client). inventory conn [] w.out ≡ items_of w.room x)
        (some_inj c a (sym here ∙ h))
        ((d c here).0
          ∙ take-all c.send_index (items_of w.room c) (d c here).1
              (leb→le (length (items_of w.room c)) c.send_index e))

  send_rest-Served : Served conn w (send_rest conn c w)
  unfolding send_rest
  send_rest-Served =
      if_both (λ (v : World). Served conn w v) (no_items c.items_handling) unserved
        (λ e.
          if_both (λ (v : World). Served conn w v) (leb (length (items_of w.room c)) c.send_index)
            none_left (λ e'. served-IsCaughtUp conn c w here))

send_rest_of-Kept :
    (conn : ConnId) (w : World) (o : Option Client)
    → lookup conn w.room.clients ≡ o
    → Kept w (send_rest_of conn w o)
send_rest_of-Kept conn w none h = Kept-refl w
send_rest_of-Kept conn w (some c) h = send_rest-Kept conn c w h

send_rest_of-Served :
    (conn : ConnId) (w : World) (o : Option Client)
    → lookup conn w.room.clients ≡ o
    → Served conn w (send_rest_of conn w o)
send_rest_of-Served conn w none h = λ d a e n. absurd (ground (arith, h, e))
send_rest_of-Served conn w (some c) h = send_rest-Served conn c w h

send_to_conns-Kept : (conns : List ConnId) (w : World) → Kept w (send_to_conns conns w)
unfolding send_to_conns
send_to_conns-Kept [] w = Kept-refl w
send_to_conns-Kept (conn ∷ conns) w =
    let v = send_rest_of conn w (lookup conn w.room.clients) in
    Kept-trans w v (send_to_conns conns v) (send_rest_of-Kept conn w _ refl)
      (send_to_conns-Kept conns v)

send_to_conns-Served :
    (conns : List ConnId) (w : World) (conn : ConnId)
    → contains conns conn ≡ true
    → Served conn w (send_to_conns conns w)
unfolding send_to_conns contains
send_to_conns-Served [] w conn h d = absurd (ground (arith, h))
send_to_conns-Served (k ∷ conns) w conn h d =
    let v = send_rest_of k w (lookup k w.room.clients) in
    let kept = send_rest_of-Kept k w (lookup k w.room.clients) refl conn d in
    elim (Bool-cases (k == conn)) [
      | inl e ↦ (send_to_conns-Kept conns v conn kept.0).1 (
          subst (λ x. IsDelivered x w → IsCaughtUp x v) ((nat_eq.beq_iff k conn).0 e)
            (send_rest_of-Served k w (lookup k w.room.clients) refl) d)
      | inr e ↦ send_to_conns-Served conns v conn (ground (arith, h, e)) kept.0
    ]

send_to_conns-by_slot :
    (conns : List ConnId) (w : World) → (send_to_conns conns w).room.by_slot ≡ w.room.by_slot
send_to_conns-by_slot conns w = ap (λ (r : Room). r.by_slot) (send_to_conns-SameButClients conns w)

send_new_items-Kept : (slots : List ℕ) (w : World) → Kept w (send_new_items slots w)
unfolding send_new_items
send_new_items-Kept [] w = Kept-refl w
send_new_items-Kept (slot ∷ slots) w =
    let v = send_to_conns (get_or w.room.by_slot (0, slot) []) w in
    Kept-trans w v (send_new_items slots v)
      (send_to_conns-Kept (get_or w.room.by_slot (0, slot) []) w) (send_new_items-Kept slots v)

-- Where each packet has extended what a connection's client holds up to its position, that stays so
-- in a delivery of new items, for every connection.
pub send_new_items-IsDelivered :
    (slots : List ℕ) (w : World) (conn : ConnId)
    → IsDelivered conn w
    → IsDelivered conn (send_new_items slots w)
send_new_items-IsDelivered slots w conn d = (send_new_items-Kept slots w conn d).0

send_new_items-IsCaughtUp :
    (slots : List ℕ) (w : World) (slot conn : ℕ)
    → contains slots slot ≡ true
    → contains (get_or w.room.by_slot (0, slot) []) conn ≡ true
    → IsDelivered conn w
    → IsCaughtUp conn (send_new_items slots w)
unfolding send_new_items contains
send_new_items-IsCaughtUp [] w slot conn h k d = absurd (ground (arith, h))
send_new_items-IsCaughtUp (s ∷ slots) w slot conn h k d =
    let conns = get_or w.room.by_slot (0, s) [] in
    let v = send_to_conns conns w in
    elim (Bool-cases (s == slot)) [
      | inl e ↦ (send_new_items-Kept slots v conn (send_to_conns-Kept conns w conn d).0).1 (
          send_to_conns-Served conns w conn
            (subst (λ x. contains (get_or w.room.by_slot (0, x) []) conn ≡ true)
              (sym ((nat_eq.beq_iff s slot).0 e)) k)
            d)
      | inr e ↦
          send_new_items-IsCaughtUp slots v slot conn (ground (arith, h, e))
            (subst
              (λ (b : Dict SlotKey (List ConnId)). contains (get_or b (0, slot) []) conn ≡ true)
              (sym (send_to_conns-by_slot conns w)) k)
            (send_to_conns-Kept conns w conn d).0
    ]

-- After a delivery of new items to some slots, the client of a connection of one of them in the team
-- 0 that is sent items at all holds the items of its slot, each once and in their order, where before
-- it held those up to its position, which was within them.
pub inventory-send_new_items :
    (slots : List ℕ) (w : World) (slot conn : ℕ) (c : Client)
    → contains slots slot ≡ true
    → contains (get_or w.room.by_slot (0, slot) []) conn ≡ true
    → IsDelivered conn w
    → lookup conn (send_new_items slots w).room.clients ≡ some c
    → no_items c.items_handling ≡ false
    → inventory conn [] (send_new_items slots w).out ≡ items_of (send_new_items slots w).room c
inventory-send_new_items slots w slot conn c h k d =
    send_new_items-IsCaughtUp slots w slot conn h k d c

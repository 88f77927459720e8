-- ===== src/Room/Queues/Delivery.antt =====
-- crates/pahoa-room/src/room.rs: the items that a client holds, as it makes them of what it is sent, and
-- the queue of its slot.
use pahoa.Prelude.{
  ℕ, zero, suc, ◌≤◌, Bool, false, some, List, [], ◌∷◌, ◌++◌, length, take, drop, ◌≡◌, refl, sym, ap,
  ◌∙◌, arith, if◌then◌else◌, subst, take-append-drop,
}
use pahoa.Prelude.Equality.{◌==◌, nat_eq, pair_eq, beq_refl}
use pahoa.Prelude.Dict.{lookup, insert, lookup-insert}
use pahoa.Multidata.Types.{NetworkItem}
use pahoa.Proto.Packets.{ServerPacket, received_items}
use pahoa.Proto.Packets.Flags.{no_items}
use pahoa.Room.Effects.{ConnId, Effect, send}
use pahoa.Room.Client.{Client}
use pahoa.Room.State.{Room, World, emit}
use pahoa.Room.Queues.{items_of}

-- A client cuts its items at a packet's index and takes the packet's items behind them.
abbrev pub receive : List NetworkItem → ServerPacket → List NetworkItem
receive held (received_items p) = take p.index held ++ p.items
receive held _ = held

abbrev pub receive_all : List NetworkItem → List ServerPacket → List NetworkItem
receive_all held [] = held
receive_all held (p ∷ ps) = receive_all (receive held p) ps

abbrev pub observe : ConnId → List NetworkItem → Effect → List NetworkItem
observe conn held (send c ps) = if c == conn then receive_all held ps else held
observe conn held _ = held

-- The items of a connection's client after some effects, from those before.
unfoldable pub inventory : ConnId → List NetworkItem → List Effect → List NetworkItem
inventory conn held [] = held
inventory conn held (e ∷ es) = inventory conn (observe conn held e) es

pub inventory-append :
    (conn : ConnId) (held : List NetworkItem) (es fs : List Effect)
    → inventory conn held (es ++ fs) ≡ inventory conn (inventory conn held es) fs
unfolding inventory
inventory-append conn held [] fs = refl
inventory-append conn held (e ∷ es) fs = inventory-append conn (observe conn held e) es fs

take-take : (n : ℕ) (xs : List NetworkItem) → take n (take n xs) ≡ take n xs
take-take zero xs = refl
take-take (suc n) [] = refl
take-take (suc n) (x ∷ xs) = ap (λ l. x ∷ l) (take-take n xs)

take-length : (xs : List NetworkItem) → take (length xs) xs ≡ xs
take-length [] = refl
take-length (x ∷ xs) = ap (λ l. x ∷ l) (take-length xs)

-- The client holds the items up to its position, which is within them.
abbrev pub IsAt : Room → List NetworkItem → Client → Type 0
IsAt room held c =
    (held ≡ take c.send_index (items_of room c)) × (c.send_index ≤ length (items_of room c))

abbrev pub IsDelivered : ConnId → World → Type 0
IsDelivered conn w =
    (c : Client) → lookup conn w.room.clients ≡ some c → IsAt w.room (inventory conn [] w.out) c

-- A client that is sent items at all holds all of them.
abbrev pub IsCaughtUp : ConnId → World → Type 0
IsCaughtUp conn w =
    (c : Client)
    → lookup conn w.room.clients ≡ some c
    → no_items c.items_handling ≡ false
    → inventory conn [] w.out ≡ items_of w.room c

pub some_inj : (a b : Client) → some a ≡ some b → a ≡ b
some_inj a b e = cc

pub take-all : (n : ℕ) (xs : List NetworkItem) → n ≤ length xs → length xs ≤ n → take n xs ≡ xs
take-all n xs h k =
    let e : n ≡ length xs = omega (arith, h, k) in ap (λ m. take m xs) e ∙ take-length xs

module _ (conn : ConnId) (c : Client) (w : World) (here : lookup conn w.room.clients ≡ some c) where
  abbrev pub every : List NetworkItem
  every = items_of w.room c

  -- The position of the client after all its items, and the world in which it was sent the rest.
  abbrev pub moved : Client
  moved = record c { send_index = length every }

  abbrev pub rest : ServerPacket
  rest = received_items (record { index = c.send_index; items = drop c.send_index every })

  abbrev pub served : World
  served = record (emit (send conn (rest ∷ [])) w) {
    room = record w.room { clients = insert conn moved w.room.clients };
  }

  inventory-served : IsDelivered conn w → inventory conn [] served.out ≡ every
  unfolding inventory
  inventory-served d =
      let held : List NetworkItem = inventory conn [] w.out in
      inventory-append conn [] w.out (send conn (rest ∷ []) ∷ [])
      ∙ ap (λ (b : Bool). if b then take c.send_index held ++ drop c.send_index every else held)
          (beq_refl conn)
      ∙ ap (λ h. take c.send_index h ++ drop c.send_index every) (d c here).0
      ∙ ap (λ h. h ++ drop c.send_index every) (take-take c.send_index every)
      ∙ take-append-drop c.send_index every

  lookup-served : (a : Client) → lookup conn served.room.clients ≡ some a → moved ≡ a
  lookup-served a e =
      some_inj moved a
        (ground (arith, e, lookup-insert conn conn moved w.room.clients, beq_refl conn))

  module _ (other : ConnId) (apart : (conn == other) ≡ false) where
    lookup-served_other : lookup other served.room.clients ≡ lookup other w.room.clients
    lookup-served_other = ground (arith, lookup-insert other conn moved w.room.clients, apart)

    inventory-served_other : inventory other [] served.out ≡ inventory other [] w.out
    unfolding inventory
    inventory-served_other =
        inventory-append other [] w.out (send conn (rest ∷ []) ∷ [])
        ∙ ap
            (λ (b : Bool).
              if b
              then receive_all (inventory other [] w.out) (rest ∷ [])
              else inventory other [] w.out)
            apart

  pub served-IsDelivered : IsDelivered conn w → IsDelivered conn served
  unfolding items_of
  served-IsDelivered d a e =
      subst (λ (x : Client). IsAt served.room (inventory conn [] served.out) x) (lookup-served a e)
        (inventory-served d ∙ sym (take-length every), omega arith)

  pub served-IsCaughtUp : IsDelivered conn w → IsCaughtUp conn served
  unfolding items_of
  served-IsCaughtUp d a e n =
      subst (λ (x : Client). inventory conn [] served.out ≡ items_of served.room x)
        (lookup-served a e) (inventory-served d)

  pub served_other-IsDelivered :
      (other : ConnId) → (conn == other) ≡ false → IsDelivered other w → IsDelivered other served
  unfolding items_of
  served_other-IsDelivered other apart d a e =
      subst (λ h. IsAt w.room h a) (sym (inventory-served_other other apart))
        (d a (sym (lookup-served_other other apart) ∙ e))

  pub served_other-IsCaughtUp :
      (other : ConnId) → (conn == other) ≡ false → IsCaughtUp other w → IsCaughtUp other served
  unfolding items_of
  served_other-IsCaughtUp other apart u a e n =
      inventory-served_other other apart ∙ u a (sym (lookup-served_other other apart) ∙ e) n

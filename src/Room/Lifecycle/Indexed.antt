-- ===== src/Room/Lifecycle/Indexed.antt =====
-- crates/pahoa-room/src/room.rs: the list of a slot's connections has those that are authenticated to it.
use pahoa.Prelude.{
  Bool, false, ◌&&◌, ◌||◌, not, Option, none, some, List, [], ◌∷◌, ◌++◌, ◌≡◌, refl, arith,
  if◌then◌else◌,
}
use pahoa.Prelude.Equality.{Eq, ◌==◌, nat_eq, pair_eq, contains, contains-append}
use pahoa.Prelude.Dict.{
  Dict, lookup, insert, erase, get_or, lookup-insert, lookup-erase, get_or-insert,
}
use pahoa.Prelude.Sorting.{remove_set}
use pahoa.Room.Hints.{SlotKey}
use pahoa.Room.Effects.{ConnId}
use pahoa.Room.Client.{Client}
use pahoa.Room.State.{Room}
use pahoa.Room.Queues.{push_queue}
use pahoa.Room.Lifecycle.{retain, drop_conn}

-- Whether a connection stands in the list of a slot.
unfoldable pub is_listed : Dict SlotKey (List ConnId) → ConnId → SlotKey → Bool
is_listed by_slot conn key = contains (get_or by_slot key []) conn

abbrev pub sits_at : Option Client → SlotKey → Bool
sits_at none key = false
sits_at (some client) key = client.auth && (client.team, client.slot) == key

-- Whether a connection is authenticated to a slot.
unfoldable pub is_member : Dict ConnId Client → ConnId → SlotKey → Bool
is_member clients conn key = sits_at (lookup conn clients) key

-- Each list has the connections that are authenticated to its slot, and no others.
abbrev pub Agrees : Dict SlotKey (List ConnId) → Dict ConnId Client → Type 0
Agrees by_slot clients =
    (conn : ConnId) (key : SlotKey) → is_listed by_slot conn key ≡ is_member clients conn key

abbrev pub IsIndexed : Room → Type 0
IsIndexed room = Agrees room.by_slot room.clients

contains-remove_set :
    (conns : List ConnId) (a conn : ConnId)
    → contains (remove_set conns a) conn ≡ (contains conns conn && not (a == conn))
unfolding remove_set contains
contains-remove_set [] a conn = refl
contains-remove_set (c ∷ conns) a conn = ground (
  arith,
  contains-remove_set conns a conn,
  nat_eq.beq_iff c a,
  nat_eq.beq_iff c conn,
  nat_eq.beq_iff a conn,
)

module _ {ℓ} {K : Type ℓ} ⦃e : Eq K⦄ where
  contains-retain :
      (d : Dict K (List ConnId)) (old key : K) (a conn : ConnId) (found : Option (List ConnId))
      → lookup old d ≡ found
      → contains (get_or (retain old a found d) key []) conn
        ≡ (contains (get_or d key []) conn && not (old == key && a == conn))
  unfolding contains
  contains-retain d old key a conn none h = ground (arith, e.beq_iff old key)
  contains-retain d old key a conn (some conns) h = ground (
    arith,
    e.beq_iff old key,
    get_or-insert key old (remove_set conns a) [] d,
    contains-remove_set conns a conn,
  )

  contains-push_queue :
      (d : Dict K (List ConnId)) (at key : K) (a conn : ConnId)
      → contains (get_or (push_queue at a d) key []) conn
        ≡ (contains (get_or d key []) conn || (at == key && a == conn))
  unfolding push_queue contains
  contains-push_queue d at key a conn = ground (
    arith,
    e.beq_iff at key,
    get_or-insert key at (get_or d at [] ++ a ∷ []) [] d,
    contains-append (get_or d at []) (a ∷ []) conn,
  )

is_listed-drop_conn :
    (by_slot : Dict SlotKey (List ConnId)) (old key : SlotKey) (a conn : ConnId)
    → is_listed (drop_conn old a by_slot) conn key
      ≡ (is_listed by_slot conn key && not (old == key && a == conn))
unfolding drop_conn is_listed
is_listed-drop_conn by_slot old key a conn =
    contains-retain by_slot old key a conn (lookup old by_slot) refl

pub is_member-insert :
    (clients : Dict ConnId Client) (a conn : ConnId) (client : Client) (key : SlotKey)
    → is_member (insert a client clients) conn key
      ≡ (if a == conn then sits_at (some client) key else is_member clients conn key)
unfolding is_member
is_member-insert clients a conn client key = ground (arith, lookup-insert conn a client clients)

pub is_member-erase :
    (clients : Dict ConnId Client) (a conn : ConnId) (key : SlotKey)
    → is_member (erase a clients) conn key ≡ (not (a == conn) && is_member clients conn key)
unfolding is_member
is_member-erase clients a conn key = ground (arith, lookup-erase conn a clients)

-- A change of a client that leaves where it is authenticated.
pub insert-Agrees :
    (by_slot : Dict SlotKey (List ConnId)) (clients : Dict ConnId Client) (a : ConnId)
    (client : Client)
    → ((key : SlotKey) → sits_at (some client) key ≡ is_member clients a key)
    → Agrees by_slot clients
    → Agrees by_slot (insert a client clients)
insert-Agrees by_slot clients a client same agrees conn key = ground (
  arith,
  nat_eq.beq_iff a conn,
  agrees conn key,
  same key,
  is_member-insert clients a conn client key,
)

pub seated-Agrees :
    (by_slot : Dict SlotKey (List ConnId)) (clients after : Dict ConnId Client) (a : ConnId)
    (client : Client) (key : SlotKey)
    → lookup a clients ≡ some client
    → Agrees by_slot clients
    → ((conn : ConnId) (k : SlotKey)
        → is_member after conn k ≡ (if a == conn then key == k else is_member clients conn k))
    → Agrees
        (push_queue key a
          (if client.auth then drop_conn (client.team, client.slot) a by_slot else by_slot))
        after
unfolding is_listed is_member
seated-Agrees by_slot clients after a client key here agrees members conn k = ground (
  arith,
  nat_eq.beq_iff a conn,
  agrees conn k,
  members conn k,
  contains-push_queue by_slot key k a conn,
  contains-push_queue (drop_conn (client.team, client.slot) a by_slot) key k a conn,
  is_listed-drop_conn by_slot (client.team, client.slot) k a conn,
)

pub left-Agrees :
    (by_slot : Dict SlotKey (List ConnId)) (clients : Dict ConnId Client) (a : ConnId)
    (client : Client)
    → lookup a clients ≡ some client
    → Agrees by_slot clients
    → Agrees
        (if client.auth then drop_conn (client.team, client.slot) a by_slot else by_slot)
        (erase a clients)
unfolding is_listed is_member
left-Agrees by_slot clients a client here agrees conn k = ground (
  arith,
  nat_eq.beq_iff a conn,
  agrees conn k,
  is_member-erase clients a conn k,
  is_listed-drop_conn by_slot (client.team, client.slot) k a conn,
)

-- ===== src/Room/Queues/Receivers.antt =====
-- crates/pahoa-room/src/room.rs: which queues an item goes to, and the fuel of the recursion on groups.
use pahoa.Prelude.{
  ℕ, zero, suc, ◌≤◌, ◌<◌, true, List, [], ◌∷◌, ◌++◌, length, ◌≡◌, refl, sym, ap, ◌∙◌, arith,
}
use pahoa.Prelude.Equality.{nat_eq, pair_eq, bool_eq, contains, beq_refl}
use pahoa.Multidata.Types.{NetworkItem}
use pahoa.Room.Hints.Collect.{MultiData}
use pahoa.Room.State.{group_members_of}
use pahoa.Room.Queues.{Queues, queue_item, each_member, members_or, send_item_to, group_fuel}

-- The slots that an item for a target goes to: those of a group, and the target itself otherwise.
abbrev flatten : (ℕ → List ℕ) → List ℕ → List ℕ
flatten f [] = []
flatten f (m ∷ ms) = f m ++ flatten f ms

abbrev receivers_or : (ℕ → List ℕ) → ℕ → List ℕ → List ℕ
receivers_or f t [] = t ∷ []
receivers_or f t (m ∷ ms) = flatten f (m ∷ ms)

unfoldable pub receivers : ℕ → MultiData → ℕ → List ℕ
unfolding group_members_of
receivers zero seed t = []
receivers (suc fuel) seed t = receivers_or (receivers fuel seed) t (group_members_of seed t)

unfoldable pub queue_all : ℕ → NetworkItem → List ℕ → Queues → Queues
unfolding queue_item
queue_all team item [] queues = queues
queue_all team item (t ∷ ts) queues = queue_all team item ts (queue_item team t item queues)

queue_all-append :
    (team : ℕ) (item : NetworkItem) (ts us : List ℕ) (queues : Queues)
    → queue_all team item (ts ++ us) queues ≡ queue_all team item us (queue_all team item ts queues)
unfolding queue_all
queue_all-append team item [] us queues = refl
queue_all-append team item (t ∷ ts) us queues =
    queue_all-append team item ts us (queue_item team t item queues)

each_member-queue_all :
    (team : ℕ) (item : NetworkItem) (f : ℕ → List ℕ) (deliver : ℕ → Queues → Queues)
    → ((m : ℕ) (q : Queues) → deliver m q ≡ queue_all team item (f m) q)
    → (ms : List ℕ) (queues : Queues)
    → each_member deliver ms queues ≡ queue_all team item (flatten f ms) queues
unfolding each_member queue_all
each_member-queue_all team item f deliver h [] queues = refl
each_member-queue_all team item f deliver h (m ∷ ms) queues =
    ap (each_member deliver ms) (h m queues)
    ∙ each_member-queue_all team item f deliver h ms (queue_all team item (f m) queues)
    ∙ sym (queue_all-append team item (f m) (flatten f ms) queues)

members_or-queue_all :
    (team t : ℕ) (item : NetworkItem) (f : ℕ → List ℕ) (deliver : ℕ → Queues → Queues)
    → ((m : ℕ) (q : Queues) → deliver m q ≡ queue_all team item (f m) q)
    → (ms : List ℕ) (queues : Queues)
    → members_or deliver (queue_item team t item) ms queues
      ≡ queue_all team item (receivers_or f t ms) queues
unfolding queue_all
members_or-queue_all team t item f deliver h [] queues = refl
members_or-queue_all team t item f deliver h (m ∷ ms) queues =
    each_member-queue_all team item f deliver h (m ∷ ms) queues

pub send_item_to-queue_all :
    (fuel : ℕ) (seed : MultiData) (team t : ℕ) (item : NetworkItem) (queues : Queues)
    → send_item_to fuel seed team t item queues ≡ queue_all team item (receivers fuel seed t) queues
unfolding send_item_to receivers queue_all
send_item_to-queue_all zero seed team t item queues = refl
send_item_to-queue_all (suc fuel) seed team t item queues =
    members_or-queue_all team t item (receivers fuel seed) (λ m. send_item_to fuel seed team m item)
      (λ m q. send_item_to-queue_all fuel seed team m item q) (group_members_of seed t) queues

-- Groups do not contain each other in a circle: a rank goes down from a group to its members, and is
-- no more than the number of slots.
pub record IsRanked (seed : MultiData) : Type 0 where
  pub rank : ℕ → ℕ
  pub lower : (s m : ℕ) → contains (group_members_of seed s) m ≡ true → rank m < rank s
  pub bounded : (s : ℕ) → rank s ≤ length seed.slot_info

module _ (seed : MultiData) (team : ℕ) (item : NetworkItem) where
  -- The recursion of the source as finitely many steps, with the targets that are left and the queues
  -- before and after: a target that has no members gets the item, and a group passes it to its members.
  pub data Sends : List ℕ → Queues → Queues → Type 0 where
    done : (queues : Queues) → Sends [] queues queues
    own :
        (t : ℕ) (ts : List ℕ) (queues after : Queues)
        → group_members_of seed t ≡ []
        → Sends ts (queue_item team t item queues) after
        → Sends (t ∷ ts) queues after
    members :
        (t m : ℕ) (ms ts : List ℕ) (queues between after : Queues)
        → group_members_of seed t ≡ m ∷ ms
        → Sends (m ∷ ms) queues between
        → Sends ts between after
        → Sends (t ∷ ts) queues after

  -- Whatever targets are left behind it, the target is delivered to first.
  abbrev Delivers : (ℕ → Queues → Queues) → ℕ → Type 0
  Delivers deliver t =
      (ts : List ℕ) (queues after : Queues)
      → Sends ts (deliver t queues) after
      → Sends (t ∷ ts) queues after

  each_member-Sends :
      (deliver : ℕ → Queues → Queues) (ms : List ℕ)
      → ((m : ℕ) → contains ms m ≡ true → Delivers deliver m)
      → (queues : Queues) → Sends ms queues (each_member deliver ms queues)
  unfolding each_member contains
  each_member-Sends deliver [] h queues = done queues
  each_member-Sends deliver (m ∷ ms) h queues =
      h m (ground (arith, beq_refl m)) ms queues (each_member deliver ms (deliver m queues))
        (each_member-Sends deliver ms (λ k c. h k (ground arith)) (deliver m queues))

  members_or-Sends :
      (deliver : ℕ → Queues → Queues) (t : ℕ) (ms : List ℕ)
      → group_members_of seed t ≡ ms
      → ((m : ℕ) → contains ms m ≡ true → Delivers deliver m)
      → Delivers (λ k queues. members_or deliver (queue_item team k item) ms queues) t
  members_or-Sends deliver t [] e h ts queues after rest = own t ts queues after e rest
  members_or-Sends deliver t (m ∷ ms) e h ts queues after rest =
      members t m ms ts queues (each_member deliver (m ∷ ms) queues) after e
        (each_member-Sends deliver (m ∷ ms) h queues) rest

  module _ (r : IsRanked seed) where
    send_item_to-enough :
        (fuel t : ℕ) → r.rank t < fuel → Delivers (λ m. send_item_to fuel seed team m item) t
    unfolding send_item_to
    send_item_to-enough zero t h = absurd (omega arith)
    send_item_to-enough (suc fuel) t h =
        members_or-Sends (λ m. send_item_to fuel seed team m item) t (group_members_of seed t) refl
          (λ m c. send_item_to-enough fuel m (omega (arith, r.lower t m c)))

    -- Where no group contains itself through others, the recursion of the source ends: there are
    -- finitely many steps of it from the target, with the queues before them to those that the room
    -- has after them.
    pub send_item_to-Sends :
        (t : ℕ) (queues : Queues)
        → Sends (t ∷ []) queues (send_item_to (group_fuel seed) seed team t item queues)
    send_item_to-Sends t queues =
        send_item_to-enough (group_fuel seed) t (omega (arith, r.bounded t)) [] queues
          (send_item_to (group_fuel seed) seed team t item queues) (done _)

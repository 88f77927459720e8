-- ===== src/Budget/Bounds.antt =====
-- crates/pahoa-net/src/budget.rs: the count of all waiting bytes is their sum, and within the limit.
use Prim.Native.Nat.{max}
use pahoa.Prelude.{
  ℕ, zero, suc, ◌+◌, ◌-◌, ◌^◌, ◌≤◌, ◌<◌, Bool, false, not, ◌&&◌, Option, none, some, List, [], ◌∷◌,
  ◌++◌, get_elem?, set, ltb, ◌≡◌, refl, sym, ap, ◌∙◌, All, arith, if_both,
}
use pahoa.Budget.{
  Budget, ConnBudget, Counters, Outcome, Action, connect, reserve_at, release_at, release_all_at,
  Net, wrapping_add, stalled_for, is_stalled, unless_stalled, reserve_room, reserve_share,
  reserve_reported, release, release_all, new_conn, put, act_at, target, act, run,
}

unfoldable pub sum_queued : List ConnBudget → ℕ
sum_queued [] = 0
sum_queued (c ∷ cs) = c.queued + sum_queued cs

-- The counter of all bytes is the sum over the connections, and it and its highest value are within
-- the limit.
abbrev pub IsBounded : Budget → Net → Type 0
IsBounded b (conns, counters) =
    (counters.total ≡ sum_queued conns)
    × (counters.total ≤ counters.peak)
    × (counters.peak ≤ b.limit)

-- A frame shorter than 2^63 bytes.
abbrev pub IsSized : Action → Type 0
IsSized (reserve_at i now size) = size < 2 ^ 63
IsSized (connect now) = Unit
IsSized (release_at i now size) = Unit
IsSized (release_all_at i) = Unit

sum_queued-set :
    (cs : List ConnBudget) (i : ℕ) (c d : ConnBudget)
    → get_elem? cs i ≡ some c
    → sum_queued (set cs i d) + c.queued ≡ sum_queued cs + d.queued
unfolding sum_queued
sum_queued-set [] i c d h = absurd (ground (arith, h))
sum_queued-set (x ∷ cs) zero c d h = ground (arith, h)
sum_queued-set (x ∷ cs) (suc i) c d h = omega (arith, sum_queued-set cs i c d h)

get_elem-queued :
    (cs : List ConnBudget) (i : ℕ) (c : ConnBudget)
    → get_elem? cs i ≡ some c
    → c.queued ≤ sum_queued cs
unfolding sum_queued
get_elem-queued [] i c h = absurd (ground (arith, h))
get_elem-queued (x ∷ cs) zero c h = ground (arith, h)
get_elem-queued (x ∷ cs) (suc i) c h = omega (arith, get_elem-queued cs i c h)

sum_queued-append :
    (cs : List ConnBudget) (now : ℕ) → sum_queued (cs ++ new_conn now ∷ []) ≡ sum_queued cs
unfolding sum_queued
sum_queued-append [] now = refl
sum_queued-append (c ∷ cs) now = ap (λ n. c.queued + n) (sum_queued-append cs now)

-- What one connection's change does to the counters.
abbrev Keeps : ℕ → ConnBudget → Counters → ConnBudget × Counters → Type 0
Keeps limit c counters (c', counters') =
    (counters'.total + c.queued ≡ counters.total + c'.queued)
    × (counters'.total ≤ counters'.peak)
    × (counters'.peak ≤ limit)

module _ (b : Budget) (c : ConnBudget) (k : Counters) (small : b.limit < 2 ^ 63)
    (held : c.queued ≤ k.total) (top : k.total ≤ k.peak) (within : k.peak ≤ b.limit) where
  reserve_room-Keeps :
      (now size : ℕ) (oversized : Bool)
      → size < 2 ^ 63
      → Keeps b.limit c k (reserve_room b now c k size oversized).1
  unfolding reserve_room
  reserve_room-Keeps now size oversized sized =
      if_both (λ (o : Outcome). Keeps b.limit c k o.1) (ltb b.limit (wrapping_add k.total size))
        (λ e. (omega arith, omega arith, within))
        (λ e. (omega arith, omega arith, room_left k.total size k.peak b.limit within e))
    where
      room_left :
          (t s p l : ℕ) → p ≤ l → ltb l (wrapping_add t s) ≡ false → max p (wrapping_add t s) ≤ l
      room_left t s p l h e = ground arith

  reserve_reported-Keeps :
      (now size : ℕ) → size < 2 ^ 63 → Keeps b.limit c k (reserve_reported b now c k size).1
  unfolding reserve_reported reserve_share
  reserve_reported-Keeps now size sized = unstalled (is_stalled (stalled_for now c))
    where
      kept : Keeps b.limit c k (c, k)
      kept = (refl, top, within)

      unstalled :
          (o : Option ℕ) → Keeps b.limit c k (unless_stalled o c k (reserve_share b now c k size)).1
      unstalled (some ms) = kept
      unstalled none =
          if_both (λ (o : Outcome). Keeps b.limit c k o.1)
            (not (ltb b.per_connection size && ltb (c.queued - c.oversize) b.per_connection)
              && ltb b.per_connection (wrapping_add (c.queued - c.oversize) size))
            (λ e. kept)
            (λ e.
              reserve_room-Keeps now size
                (ltb b.per_connection size && ltb (c.queued - c.oversize) b.per_connection) sized)

  release-Keeps : (now size : ℕ) → Keeps b.limit c k (release now c k size)
  unfolding release
  release-Keeps now size = (omega arith, omega arith, within)

  release_all-Keeps : Keeps b.limit c k (release_all c k)
  unfolding release_all
  release_all-Keeps = (omega arith, omega arith, within)

put-IsBounded :
    (b : Budget) (conns : List ConnBudget) (k : Counters) (i : ℕ) (c : ConnBudget)
    (changed : ConnBudget × Counters)
    → get_elem? conns i ≡ some c
    → IsBounded b (conns, k)
    → Keeps b.limit c k changed
    → IsBounded b (put conns i changed)
put-IsBounded b conns k i c (d, k') at (same, top, within) (total, top', within') =
    (omega (arith, same, total, sum_queued-set conns i c d at), top', within')

act-IsBounded :
    (b : Budget) (net : Net) (action : Action)
    → b.limit < 2 ^ 63
    → IsSized action
    → IsBounded b net
    → IsBounded b (act b net action)
unfolding act
act-IsBounded b (conns, k) action small sized (same, top, within) =
    each action sized (get_elem? conns (target action)) refl
  where
    held : (i : ℕ) (c : ConnBudget) → get_elem? conns i ≡ some c → c.queued ≤ k.total
    held i c at = omega (arith, same, get_elem-queued conns i c at)

    each :
        (a : Action)
        → IsSized a
        → (o : Option ConnBudget) → get_elem? conns (target a) ≡ o
        → IsBounded b (act_at b (conns, k) a o)
    each (connect now) s o at = (same ∙ sym (sum_queued-append conns now), top, within)
    each (reserve_at i now size) s none at = (same, top, within)
    each (reserve_at i now size) s (some c) at =
        put-IsBounded b conns k i c (reserve_reported b now c k size).1 at (same, top, within)
          (reserve_reported-Keeps b c k small (held i c at) top within now size s)
    each (release_at i now size) s none at = (same, top, within)
    each (release_at i now size) s (some c) at =
        put-IsBounded b conns k i c (release now c k size) at (same, top, within)
          (release-Keeps b c k small (held i c at) top within now size)
    each (release_all_at i) s none at = (same, top, within)
    each (release_all_at i) s (some c) at =
        put-IsBounded b conns k i c (release_all c k) at (same, top, within)
          (release_all-Keeps b c k small (held i c at) top within)

-- With a limit below 2^63 and frames shorter than 2^63 bytes, where the counter of waiting bytes is the
-- sum over the connections, and it and its highest value are within the limit, this stays so whatever
-- shards and writers do, and in whatever order, a release after the connection is gone included.
pub run-IsBounded :
    (b : Budget) (net : Net) (actions : List Action)
    → b.limit < 2 ^ 63
    → All IsSized actions
    → IsBounded b net
    → IsBounded b (run b net actions)
unfolding run
run-IsBounded b net [] small sized h = h
run-IsBounded b net (action ∷ actions) small sized h =
    run-IsBounded b (act b net action) actions small sized.1
      (act-IsBounded b net action small sized.0 h)

-- ===== src/Budget.antt =====
-- crates/pahoa-net/src/budget.rs: the bytes that wait to be sent, of each connection and of all.
pub mod Bounds
mod Tests
use Prim.Native.Nat.{min, max}
use pahoa.Prelude.{
  ℕ, zero, suc, ◌+◌, ◌-◌, ◌%◌, ◌^◌, Bool, true, false, not, ◌&&◌, Option, none, some, List, [], ◌∷◌,
  ◌++◌, get_elem?, set, ltb, eqb, if◌then◌else◌,
}
use pahoa.Prelude.Result.{Result, ok, err}

-- `STALL_DEADLINE_MS`
abbrev pub stall_deadline_ms : ℕ
stall_deadline_ms = 120000

pub data Refused : Type 0 where
  share : (counted size share : ℕ) → Refused
  room_budget : (queued size limit : ℕ) → Refused
  stalled : (stalled_ms deadline_ms : ℕ) → Refused

pub record Budget : Type 0 where
  pub limit : ℕ
  pub per_connection : ℕ

pub record ConnBudget : Type 0 where
  pub queued : ℕ
  pub oversize : ℕ
  pub last_progress : ℕ

-- The statics `QUEUED` and `PEAK`.
pub record Counters : Type 0 where
  pub total : ℕ
  pub peak : ℕ

-- Sums and differences of a `usize`, which wrap.
abbrev pub wrapping_add : ℕ → ℕ → ℕ
wrapping_add a b = (a + b) % 2 ^ 64

abbrev pub wrapping_sub : ℕ → ℕ → ℕ
wrapping_sub a b = (a + (2 ^ 64 - b)) % 2 ^ 64

-- The clock `now_ms` is an argument.
abbrev pub new_conn : ℕ → ConnBudget
new_conn now = record { queued = 0; oversize = 0; last_progress = now }

abbrev pub made_progress : ℕ → ConnBudget → ConnBudget
made_progress now conn = record conn { last_progress = now }

unfoldable pub stalled_for : ℕ → ConnBudget → Option ℕ
stalled_for now conn = if eqb conn.queued 0 then none else some (now - conn.last_progress)

abbrev pub is_stalled : Option ℕ → Option ℕ
is_stalled none = none
is_stalled (some ms) = if ltb stall_deadline_ms ms then some ms else none

-- What a connection becomes when a frame is admitted.
abbrev pub admit : ℕ → ConnBudget → ℕ → Bool → ConnBudget
admit now conn size oversized = record {
  queued = wrapping_add conn.queued size;
  oversize = if oversized then wrapping_add conn.oversize size else conn.oversize;
  last_progress = if eqb conn.queued 0 then now else conn.last_progress;
}

abbrev pub Outcome : Type 0
Outcome = Result Refused Unit × (ConnBudget × Counters)

-- From `fetch_add` on; a refusal takes back what was added.
unfoldable pub reserve_room : Budget → ℕ → ConnBudget → Counters → ℕ → Bool → Outcome
reserve_room b now conn counters size oversized =
    let total = wrapping_add counters.total size in
    if ltb b.limit total
    then (
      err (room_budget (total - size) size b.limit),
      (conn, record counters { total = wrapping_sub total size }),
    )
    else (
      ok tt,
      (admit now conn size oversized, record { total = total; peak = max counters.peak total }),
    )

unfoldable pub reserve_share : Budget → ℕ → ConnBudget → Counters → ℕ → Outcome
unfolding reserve_room
reserve_share b now conn counters size =
    let counted = conn.queued - conn.oversize in
    let oversized = ltb b.per_connection size && ltb counted b.per_connection in
    if not oversized && ltb b.per_connection (wrapping_add counted size)
    then (err (share counted size b.per_connection), (conn, counters))
    else reserve_room b now conn counters size oversized

abbrev pub unless_stalled : Option ℕ → ConnBudget → Counters → Outcome → Outcome
unless_stalled none conn counters admitted = admitted
unless_stalled (some ms) conn counters admitted =
    (err (stalled ms stall_deadline_ms), (conn, counters))

unfoldable pub reserve_reported : Budget → ℕ → ConnBudget → Counters → ℕ → Outcome
unfolding stalled_for reserve_share
reserve_reported b now conn counters size =
    unless_stalled (is_stalled (stalled_for now conn)) conn counters
      (reserve_share b now conn counters size)

abbrev pub is_ok : Result {0, 0} Refused Unit → Bool
is_ok (ok admitted) = true
is_ok (err refused) = false

unfoldable pub reserve : Budget → ℕ → ConnBudget → Counters → ℕ → Bool × (ConnBudget × Counters)
unfolding reserve_reported
reserve b now conn counters size =
    let (outcome, after) = reserve_reported b now conn counters size in (is_ok outcome, after)

unfoldable pub release : ℕ → ConnBudget → Counters → ℕ → ConnBudget × Counters
release now conn counters size =
    let freed = min conn.queued size in
    let left = conn.queued - freed in
    (
      record {
        queued = left;
        oversize = if eqb left 0 then 0 else conn.oversize;
        last_progress = if ltb 0 freed then now else conn.last_progress;
      },
      record counters { total = wrapping_sub counters.total freed },
    )

unfoldable pub release_all : ConnBudget → Counters → ConnBudget × Counters
release_all conn counters = (
  record conn { queued = 0; oversize = 0 },
  record counters { total = wrapping_sub counters.total conn.queued },
)

-- What the shards and the writers of the connections do, by the index of the connection, each with
-- the time.
pub data Action : Type 0 where
  connect : (now : ℕ) → Action
  reserve_at : (index now size : ℕ) → Action
  release_at : (index now size : ℕ) → Action
  release_all_at : (index : ℕ) → Action

abbrev pub Net : Type 0
Net = List ConnBudget × Counters

abbrev pub put : List ConnBudget → ℕ → ConnBudget × Counters → Net
put conns i (conn, counters) = (set conns i conn, counters)

abbrev pub act_at : Budget → Net → Action → Option ConnBudget → Net
act_at b (conns, counters) (connect now) o = (conns ++ new_conn now ∷ [], counters)
act_at b (conns, counters) (reserve_at i now size) none = (conns, counters)
act_at b (conns, counters) (reserve_at i now size) (some conn) =
    put conns i (reserve_reported b now conn counters size).1
act_at b (conns, counters) (release_at i now size) none = (conns, counters)
act_at b (conns, counters) (release_at i now size) (some conn) =
    put conns i (release now conn counters size)
act_at b (conns, counters) (release_all_at i) none = (conns, counters)
act_at b (conns, counters) (release_all_at i) (some conn) = put conns i (release_all conn counters)

abbrev pub target : Action → ℕ
target (connect now) = 0
target (reserve_at i now size) = i
target (release_at i now size) = i
target (release_all_at i) = i

unfoldable pub act : Budget → Net → Action → Net
act b net action = act_at b net action (get_elem? net.0 (target action))

unfoldable pub run : Budget → Net → List Action → Net
unfolding act
run b net [] = net
run b net (action ∷ actions) = run b (act b net action) actions

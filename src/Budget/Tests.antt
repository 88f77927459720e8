-- ===== src/Budget/Tests.antt =====
-- The budget at a few actions: a frame, a large one, and a writer that releases behind a disconnect.
use pahoa.Prelude.{List, [], ◌∷◌, ◌≡◌, refl, arith}
use pahoa.Budget.{
  Budget, Net, Action, connect, reserve_at, release_at, release_all_at, reserve_reported, release,
  release_all, stalled_for, reserve_share, reserve_room, run, act,
}
use pahoa.Budget.Bounds.{IsBounded, sum_queued, run-IsBounded}

abbrev small : Budget
small = record { limit = 1000; per_connection = 100 }

abbrev nobody : Net
nobody = ([], record { total = 0; peak = 0 })

abbrev late_writer : List Action
late_writer =
    connect 5
    ∷ reserve_at 0 6 40
    ∷ reserve_at 0 7 500
    ∷ reserve_at 0 8 90
    ∷ release_all_at 0
    ∷ release_at 0 9 40
    ∷ []

-- The third frame is over the share, and the release finds nothing.
late_writer_totals : (run small nobody late_writer).1 ≡ record { total = 0; peak = 540 }
unfolding run act reserve_reported reserve_share reserve_room stalled_for release release_all
late_writer_totals = refl

nobody-IsBounded : IsBounded small nobody
unfolding sum_queued
nobody-IsBounded = (refl, omega arith, omega arith)

run-IsBounded_example : IsBounded small (run small nobody late_writer)
run-IsBounded_example =
    run-IsBounded small nobody late_writer (omega arith)
      (tt, (omega arith, (omega arith, (omega arith, (tt, (tt, tt)))))) nobody-IsBounded

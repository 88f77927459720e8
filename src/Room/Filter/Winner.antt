-- ===== src/Room/Filter/Winner.antt =====
-- crates/pahoa-room/src/filter.rs: which rule decides on a message, and what it decides.
use pahoa.Prelude.{
  ℕ, ◌≤◌, ◌<◌, true, ◌||◌, some, List, [], ◌∷◌, ◌++◌, All, String, ◌≡◌, refl, ap, arith,
  if◌then◌else◌,
}
use pahoa.Prelude.Dict.{Dict}
use pahoa.Room.Hints.{SlotKey}
use pahoa.Room.Filter.{Direction, Kind, Shares, Rule}
use pahoa.Room.Filter.Drops.{
  DropKey, record_drop, specificity, matches, matching, best_of, winner, max_by_specificity, drops,
}

module _ {F : Type 0} where
  matching-append :
      (xs ys : List (Rule F)) (direction : Direction) (kind : Kind) (labels : List String)
      → matching (xs ++ ys) direction kind labels
        ≡ matching xs direction kind labels ++ matching ys direction kind labels
  unfolding matching
  matching-append [] ys direction kind labels = refl
  matching-append (x ∷ xs) ys direction kind labels =
      ground (arith, matching-append xs ys direction kind labels)

  best_of-lower :
      (w : Rule F) (rules : List (Rule F))
      → All (λ r. specificity r < specificity w) rules
      → best_of w rules ≡ w
  unfolding best_of
  best_of-lower w [] lower = refl
  best_of-lower w (rule ∷ rules) lower = ground (arith, best_of-lower w rules lower.1, lower.0)

  best_of-append :
      (best w : Rule F) (before after : List (Rule F))
      → specificity best ≤ specificity w
      → All (λ r. specificity r ≤ specificity w) before
      → All (λ r. specificity r < specificity w) after
      → best_of best (before ++ w ∷ after) ≡ w
  unfolding best_of
  best_of-append best w [] after h all_before lower = ground (arith, best_of-lower w after lower)
  best_of-append best w (rule ∷ before) after h all_before lower = ground (
    arith,
    all_before.0,
    best_of-append best w before after h all_before.1 lower,
    best_of-append rule w before after all_before.0 all_before.1 lower,
  )

  max_by_specificity-append :
      (w : Rule F) (before after : List (Rule F))
      → All (λ r. specificity r ≤ specificity w) before
      → All (λ r. specificity r < specificity w) after
      → max_by_specificity (before ++ w ∷ after) ≡ some w
  max_by_specificity-append w [] after all_before lower = ap some (best_of-lower w after lower)
  max_by_specificity-append w (rule ∷ before) after all_before lower =
      ap some (best_of-append rule w before after all_before.0 all_before.1 lower)

  pub winner-append :
      (w : Rule F) (before after : List (Rule F)) (direction : Direction) (kind : Kind)
      (labels : List String)
      → matches w direction kind labels ≡ true
      → All (λ r. specificity r ≤ specificity w) (matching before direction kind labels)
      → All (λ r. specificity r < specificity w) (matching after direction kind labels)
      → winner (before ++ w ∷ after) direction kind labels ≡ some w
  unfolding winner matching
  winner-append w before after direction kind labels h all_before lower = rw (
    matching-append before (w ∷ after) direction kind labels,
    h,
    max_by_specificity-append w (matching before direction kind labels)
        (matching after direction kind labels) all_before lower,
  )

module _ {T F : Type 0} (shares : Shares T F) {S : Type 0} (roll : S → F × S) where
  -- Where a rule matches a message, no rule before it that matches is more specific and every rule after
  -- it that matches is less specific, that rule decides: the message is dropped when the rule's share
  -- reaches 1 or the number drawn is below it. A share that reaches 1 draws none, and only a message
  -- that is dropped is counted.
  pub drops-most_specific :
      (w : Rule F) (before after : List (Rule F)) (key : SlotKey) (direction : Direction)
      (kind : Kind) (labels : List String) (s : S) (counts : Dict DropKey ℕ)
      → matches w direction kind labels ≡ true
      → All (λ r. specificity r ≤ specificity w) (matching before direction kind labels)
      → All (λ r. specificity r < specificity w) (matching after direction kind labels)
      → let sure = shares.leb shares.one w.probability in
        let dropped = sure || shares.ltb (roll s).0 w.probability in
        drops shares roll
          (record { rules = before ++ w ∷ after })
          key
          direction
          kind
          labels
          s
          counts
        ≡ (
          dropped,
          (
            if sure then s else (roll s).1,
            if dropped
                then record_drop (record { key = key; direction = direction; kind = kind }) counts
                else counts,
          ),
        )
  unfolding drops
  drops-most_specific w before after key direction kind labels s counts h all_before lower =
      ground (arith, winner-append w before after direction kind labels h all_before lower)

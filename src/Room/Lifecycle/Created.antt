-- ===== src/Room/Lifecycle/Created.antt =====
-- crates/pahoa-room/src/room.rs: the index of connections is kept by a client that makes hints.
use pahoa.Prelude.{ℕ, true, Option, some, List, [], ◌∷◌, ◌++◌, String, if_both}
use pahoa.Prelude.Result.{Result, ok, err, ◌>>=◌}
use pahoa.Prelude.Int.{ℤ}
use pahoa.Prelude.Equality.{◌==◌, nat_eq}
use pahoa.Prelude.Dict.{lookup}
use pahoa.Multidata.Types.{Hint, HintStatus, status_eq}
use pahoa.Multidata.Locations.{LocationEntry}
use pahoa.Room.Effects.{ConnId}
use pahoa.Room.State.{Room, World}
use pahoa.Room.Requests.{CreateHints, collect_location_hints}
use pahoa.Room.Requests.Create.{
  requested_status, entry_at, may_hint, refuse_hints, unknown_hint, gather_hints, create_gathered,
  or_own, create_by, handle_create_hints,
}
use pahoa.Room.Lifecycle.Indexed.{IsIndexed}
use pahoa.Room.Lifecycle.Delivered.{Keeps}
use pahoa.Room.Lifecycle.Asked.{refused-Keeps, closed-Keeps}
use pahoa.Room.Lifecycle.Hinted.{
  RefusalKeeps, >>=-RefusalKeeps, Option-RefusalKeeps, for_client, counted-Keeps,
}

module _ (percent : ℕ → ℕ → ℤ) {Value : Type 0} (as_int : Value → Option ℤ)
    (display : Value → String) where
  unknown_hint-Keeps :
      (conn : ConnId) (slot player : ℕ) (v : Value) (w : World)
      → Keeps w (unknown_hint percent as_int display conn slot player v w)
  unknown_hint-Keeps conn slot player v w indexed =
      if_both (λ (f : World → World). IsIndexed (f w).room) (slot == player)
        (λ e. closed-Keeps conn _ w indexed) (λ e. refused-Keeps conn _ _ w indexed)

  gather_hints-RefusalKeeps :
      (room : Room) (conn : ConnId) (team slot player : ℕ) (status : HintStatus) (vs : List Value)
      → RefusalKeeps (gather_hints percent as_int display room conn team slot player status vs)
  unfolding gather_hints
  gather_hints-RefusalKeeps room conn team slot player status [] = tt
  gather_hints-RefusalKeeps room conn team slot player status (v ∷ vs) =
      let rest = gather_hints percent as_int display room conn team slot player status vs in
      Option-RefusalKeeps (entry_at percent as_int display room player (as_int v)) _ _
        (unknown_hint-Keeps conn slot player v)
        (λ hit.
          permitted hit (may_hint percent as_int display room slot player status hit.1) rest
            (gather_hints-RefusalKeeps room conn team slot player status vs))
    where
      permitted :
          (hit : ℤ × LocationEntry) (r : Result String (Unit {0}))
          (rest : Result (World → World) (List Hint))
          → RefusalKeeps rest
          → RefusalKeeps (elim r [
            | err text ↦ err (refuse_hints percent as_int display conn text)
            | ok u ↦ rest >>= λ hints.
                ok (collect_location_hints room (team, player) player hit.0 (some status) ++ hints)
          ])
      permitted hit (err text) rest h = λ w. refused-Keeps conn _ _ w
      permitted hit (ok u) rest h = >>=-RefusalKeeps rest _ h (λ hints. tt)

  create_gathered-Keeps :
      (team slot : ℕ) (r : Result (World → World) (List Hint)) (w : World)
      → RefusalKeeps r
      → Keeps w (create_gathered percent as_int display team slot r w)
  create_gathered-Keeps team slot (err refuse) w h = h w
  create_gathered-Keeps team slot (ok hints) w h =
      counted-Keeps percent as_int (team, slot) team hints true w

  pub handle_create_hints-Keeps :
      (conn : ConnId) (args : CreateHints Value) (w : World)
      → Keeps w (handle_create_hints percent as_int display conn args w)
  unfolding handle_create_hints
  handle_create_hints-Keeps conn args w =
      for_client (λ c. create_by percent as_int display conn c.team c.slot args) w
        (lookup conn w.room.clients)
        (λ c.
          listed c.team c.slot args.locations (requested_status percent as_int display args.status))
    where
      listed :
          (team slot : ℕ) (vs : List Value) (asked : Result String HintStatus)
          → let player = or_own percent as_int display slot args.player in
            Keeps w (elim vs [
              | [] ↦
                  refuse_hints percent as_int display conn "CreateHints: No locations specified." w
              | _ ∷ _ ↦ elim asked [
                | err text ↦ refuse_hints percent as_int display conn text w
                | ok status ↦
                    create_gathered percent as_int display team slot
                      (gather_hints percent as_int display w.room conn team slot player status
                        args.locations)
                      w
              ]
            ])
      listed team slot [] asked = refused-Keeps conn _ _ w
      listed team slot (v ∷ vs) (err text) = refused-Keeps conn _ _ w
      listed team slot (v ∷ vs) (ok status) =
          let player = or_own percent as_int display slot args.player in
          create_gathered-Keeps team slot _ w
            (gather_hints-RefusalKeeps w.room conn team slot player status args.locations)

-- ===== src/Room/Requests/Settled.antt =====
-- crates/pahoa-room/src/room.rs: a request to change a hint leaves found hints found.
use pahoa.Prelude.{ℕ, Option, none, some, List, [], ◌∷◌, sym, subst, if_both, String}
use pahoa.Prelude.Int.{ℤ}
use pahoa.Prelude.Equality.{◌==◌, nat_eq, contains as mem}
use pahoa.Prelude.Dict.{lookup}
use pahoa.Multidata.Types.{Hint, HintStatus, found, status_eq}
use pahoa.Room.Hints.{HintStore, set_status as set_hint_status, effective, find}
use pahoa.Room.Hints.Status.{IsSettled, set_status-IsSettled}
use pahoa.Room.Effects.{ConnId, mark_dirty}
use pahoa.Room.Client.{Client}
use pahoa.Room.State.{Room, World, emit, slot_set}
use pahoa.Room.Messages.{bad_arguments}
use pahoa.Room.Checks.Frame.{each_changed-room}
use pahoa.Room.Requests.{
  Arg, missing, wrong, given, UpdateHint, set_each, team_keys, concerned_slots, reprioritize,
  set_requested, read_status, update_found, update_by, handle_update_hint,
}

abbrev Settles : World → World → Type 0
Settles w v = IsSettled w.room.hints → IsSettled v.room.hints

set_each-IsSettled :
    (team : ℕ) (ts : List ℕ) (finder : ℕ) (location : ℤ) (status : HintStatus) (store : HintStore)
    → IsSettled store
    → IsSettled (set_each team ts finder location status store)
unfolding set_each
set_each-IsSettled team [] finder location status store s = s
set_each-IsSettled team (t ∷ ts) finder location status store s =
    set_each-IsSettled team ts finder location status
      (set_hint_status store (team, t) finder location status).0
      (set_status-IsSettled store (team, t) finder location status s)

reprioritize-Settles :
    (team : ℕ) (hint : Hint) (status : HintStatus) (w : World)
    → Settles w (reprioritize team hint status w)
unfolding reprioritize
reprioritize-Settles team hint status w s =
    let slots = concerned_slots w.room.seed hint in
    let hints = set_each team slots hint.finding_player hint.location status w.room.hints in
    let changed = record w { room = record w.room { hints = hints } } in
    if_both (λ (v : World). IsSettled v.room.hints) (effective status hint == hint.status) (λ e. s)
      (λ e.
        subst (λ (r : Room). IsSettled r.hints)
          (sym (each_changed-room (team_keys team slots) (emit mark_dirty changed)))
          (set_each-IsSettled team slots hint.finding_player hint.location status w.room.hints s))

refused-Settles :
    (conn : ConnId) (cmd text : String) (w : World) → Settles w (bad_arguments conn cmd text w)
unfolding bad_arguments
refused-Settles conn cmd text w s = s

set_requested-Settles :
    (conn team : ℕ) (hint : Hint) (o : Option (Option HintStatus)) (w : World)
    → Settles w (set_requested conn team hint o w)
set_requested-Settles conn team hint none w s = s
set_requested-Settles conn team hint (some none) w s = refused-Settles conn _ _ w s
set_requested-Settles conn team hint (some (some status)) w s =
    if_both (λ (v : World). IsSettled v.room.hints) (status == found)
      (λ e.
        refused-Settles conn "UpdateHint"
          "UpdateHint: Cannot manually update status to \"HINT_FOUND\"" w s)
      (λ e. reprioritize-Settles team hint status w s)

update_found-Settles :
    (conn team slot : ℕ) (status : Option ℤ) (o : Option Hint) (w : World)
    → Settles w (update_found conn team slot status o w)
update_found-Settles conn team slot status none w s = s
update_found-Settles conn team slot status (some hint) w s =
    if_both (λ (v : World). IsSettled v.room.hints)
      (mem (slot_set w.room.seed hint.receiving_player) slot)
      (λ e. set_requested-Settles conn team hint (read_status status) w s)
      (λ e. refused-Settles conn "UpdateHint" "UpdateHint: No Permission" w s)

update_by-Settles :
    (conn team slot : ℕ) (p : Arg ℕ) (l : Arg ℤ) (o : Arg (Option ℤ)) (w : World)
    → Settles w (update_by conn team slot (record { player = p; location = l; status = o }) w)
update_by-Settles conn team slot (given p) (given l) (given o) w =
    update_found-Settles conn team slot o (find w.room.hints (team, p) p l) w
update_by-Settles conn team slot (given p) (given l) missing w = refused-Settles conn _ _ w
update_by-Settles conn team slot (given p) (given l) wrong w = refused-Settles conn _ _ w
update_by-Settles conn team slot (given p) missing o w = refused-Settles conn _ _ w
update_by-Settles conn team slot (given p) wrong o w = refused-Settles conn _ _ w
update_by-Settles conn team slot missing l o w = refused-Settles conn _ _ w
update_by-Settles conn team slot wrong l o w = refused-Settles conn _ _ w

update_client-Settles :
    (conn : ConnId) (args : UpdateHint) (o : Option Client) (w : World)
    → Settles w (elim o [ none ↦ w | some client ↦ update_by conn client.team client.slot args w ])
update_client-Settles conn args none w = λ s. s
update_client-Settles conn args (some c) w =
    update_by-Settles conn c.team c.slot args.player args.location args.status w

-- Whatever a client asks to change of a hint, and whatever is wrong with its request, no hint that
-- is found has another status than `found` afterwards, where none had before.
pub handle_update_hint-IsSettled :
    (conn : ConnId) (args : UpdateHint) (w : World)
    → IsSettled w.room.hints
    → IsSettled (handle_update_hint conn args w).room.hints
unfolding handle_update_hint
handle_update_hint-IsSettled conn args w =
    update_client-Settles conn args (lookup conn w.room.clients) w

-- ===== src/Room/ConnectTests.antt =====
-- Clients that connect to a room with a password, and to one for tournaments.
use Prim.Native.String.{String, [] as empty, ◌∷◌ as cons}
use Prim.Native.Char.{code}
use text.Mathlib.TextEquality.{Char-path}
use pahoa.Prelude.{ℕ, true, false, none, some, List, [], ◌∷◌, ◌≡◌, ◌↔◌, refl, ap, ◌∙◌, arith}
use pahoa.Prelude.Equality.{pair_eq, nat_eq, contains}
use pahoa.Prelude.Dict.{lookup}
use pahoa.Prelude.Sorting.{dedup_sorted}
use pahoa.Proto.Packets.Flags.{handling}
use pahoa.Room.Hints.{SlotKey}
use pahoa.Room.State.{Room, slot_game}
use pahoa.Room.StateTests.{room, game}
use pahoa.Room.Requests.{given}
use pahoa.Room.Secret.{ct_eq, ct_eq_opt, ct_eq_iff}
use pahoa.Room.Connect.{Connect, resolve_name, refusals, min_client_version}
use pahoa.Proto.Packets.Refusal.{incompatible_version, invalid_items_handling}
use pahoa.Room.Connect.Admission.{Shown, ShownFor, refusals_safe}

-- The numbers of the characters stand for the bytes.
abbrev codes : String → List ℕ
codes empty = []
codes (cons c s) = code c ∷ codes s

codes-injective : (s t : String) → codes s ≡ codes t → s ≡ t
codes-injective empty empty h = refl
codes-injective empty (cons d t) h = absurd (ground (arith, h))
codes-injective (cons c s) empty h = absurd (ground (arith, h))
codes-injective (cons c s) (cons d t) h =
    ap (λ x. cons x s) (Char-path c d (ground (arith, h)))
    ∙ ap (λ x. cons d x) (codes-injective s t (ground (arith, h)))

abbrev secret_room : Room
secret_room = record room { options = record room.options { password = some "pw" } }

abbrev request : Connect
request = record {
  password = given (some "pw");
  game = given (some "g");
  name = given "bob";
  version = record { major = 0; minor = 6; build = 7 };
  items_handling = given 7;
  tags = [];
  slot_data = true;
}

request_admitted : refusals codes secret_room request ≡ []
unfolding refusals lookup contains dedup_sorted min_client_version slot_game ct_eq_opt handling
request_admitted = refl

refusals_safe_example :
    Shown (some "pw") (some "pw")
    × ((key : SlotKey) × (resolve_name game (given "bob") ≡ some key)
        × ((contains [] key ≡ false) × ShownFor none key.1 (some "pw")))
unfolding contains
refusals_safe_example = refusals_safe codes codes-injective secret_room request request_admitted

-- In a tournament, an old client with bad flags gets the reason of its version twice, since another
-- reason stands between the two.
abbrev tournament : Room
tournament = record room { options = record room.options { compatibility = 0 } }

abbrev old_request : Connect
old_request = record request {
  version = record { major = 0; minor = 4; build = 0 };
  items_handling = given 2;
}

repeated_reason :
    refusals codes tournament old_request
    ≡ incompatible_version ∷ invalid_items_handling ∷ incompatible_version ∷ []
unfolding refusals lookup contains dedup_sorted min_client_version slot_game ct_eq_opt handling
repeated_reason = refl

abbrev supplied_bytes : List ℕ
supplied_bytes = 7 ∷ 9 ∷ []

abbrev expected_bytes : List ℕ
expected_bytes = 7 ∷ 8 ∷ []

ct_eq_iff_example : (ct_eq supplied_bytes expected_bytes ≡ true) ↔ (supplied_bytes ≡ expected_bytes)
ct_eq_iff_example = ct_eq_iff supplied_bytes expected_bytes

-- ===== src/Ws/Session.antt =====
-- crates/pahoa-net/src/ws/message.rs: frames to messages. A `String` is its UTF-8 bytes. The inflater
-- belongs to another library: its type and its `decompress` are parameters.
pub mod Reassembly
pub mod Invariant
use pahoa.Prelude.{
  ℕ, ◌+◌, ◌*◌, Bool, true, false, not, ◌&&◌, ◌||◌, Option, none, some, List, [], ◌∷◌, ◌++◌, length,
  ltb, leb, if◌then◌else◌, is_none,
}
use pahoa.Prelude.Result.{Result, ok, err}
use pahoa.Ws.Frame.{OpCode, continuation, text, binary, close, ping, pong, Frame, is_control}
use pahoa.Ws.Bytes.{from_be_bytes}
use pahoa.Ws.Utf8.{is_utf8}

-- `DeflateError`; the text of `Corrupt` is left out.
pub data DeflateError : Type 0 where
  too_large : ℕ → DeflateError
  corrupt : DeflateError

pub data ProtocolError : Type 0 where
  orphan_continuation interleaved_message rsv1_on_continuation : ProtocolError
  unexpected_compression : ProtocolError
  message_too_large : ℕ → ℕ → ProtocolError
  not_utf8 short_close : ProtocolError
  bad_close_code : ℕ → ProtocolError
  deflate : DeflateError → ProtocolError

pub data Event : Type 0 where
  text_event : List ℕ → Event
  binary_event : List ℕ → Event
  ping_event : List ℕ → Event
  pong_event : List ℕ → Event
  close_event : Option (ℕ × List ℕ) → Event

pub record Partial : Type 0 where
  pub opcode : OpCode
  pub compressed : Bool
  pub buf : List ℕ

pub record Session (I : Type 0) : Type 0 where
  pub inflater : Option I
  pub partial : Option Partial
  pub max_message : ℕ

unfoldable pub close_code_allowed : ℕ → Bool
close_code_allowed code =
    leb 1000 code && leb code 1003
    || leb 1007 code && leb code 1011
    || leb 3000 code && leb code 4999

unfoldable pub close_payload : List ℕ → Result ProtocolError Event
unfolding close_code_allowed
close_payload [] = ok (close_event none)
close_payload (a ∷ []) = err short_close
close_payload (a ∷ b ∷ reason) =
    let code = from_be_bytes (a ∷ b ∷ []) in
    if not (close_code_allowed code)
    then err (bad_close_code code)
    else if is_utf8 reason
    then ok (close_event (some (code, reason)))
    else err not_utf8

-- The opcodes that are no control opcodes are `unreachable!` here.
unfoldable pub control_by : OpCode → List ℕ → Result ProtocolError Event
unfolding close_payload
control_by ping payload = ok (ping_event payload)
control_by pong payload = ok (pong_event payload)
control_by _ payload = close_payload payload

unfoldable pub control : Frame → Result ProtocolError Event
unfolding control_by
control frame = control_by frame.opcode frame.payload

-- The message's size is checked once more after it was inflated, and only then is it read as text.
unfoldable pub deliver : OpCode → ℕ → List ℕ → Result ProtocolError Event
deliver opcode max_message payload =
    if ltb max_message (length payload)
    then err (message_too_large (length payload) max_message)
    else elim opcode [
      | text ↦ if is_utf8 payload then ok (text_event payload) else err not_utf8
      | _ ↦ ok (binary_event payload)
    ]

-- `.map(Some)`
unfoldable pub map_some : Result ProtocolError Event → Result ProtocolError (Option Event)
map_some (ok e) = ok (some e)
map_some (err e) = err e

-- A session's reply to a frame, and the session after it.
abbrev pub Reply : Type 0 → Type 0
Reply I = Result ProtocolError (Option Event) × Session I

module _ {I : Type 0} (decompress : I → List ℕ → Result DeflateError (List ℕ) × I) where
  unfoldable pub inflated :
      Session I → OpCode → Result DeflateError (List ℕ) × I → Result ProtocolError Event × Session I
  inflated s opcode (ok payload, i) =
      (deliver opcode s.max_message payload, record s { inflater = some i })
  inflated s opcode (err e, i) = (err (deflate e), record s { inflater = some i })

  unfoldable pub finish_by :
      Session I → Partial → Bool → Option I → Result ProtocolError Event × Session I
  unfolding inflated
  finish_by s partial false inflater = (deliver partial.opcode s.max_message partial.buf, s)
  finish_by s partial true none = (err unexpected_compression, s)
  finish_by s partial true (some i) = inflated s partial.opcode (decompress i partial.buf)

  unfoldable pub finish : Session I → Partial → Result ProtocolError Event × Session I
  unfolding finish_by
  finish s partial = finish_by s partial partial.compressed s.inflater

  -- A fragment was recorded: the message is finished with it, or goes on.
  unfoldable pub record_fragment : Session I → Bool → Partial → Reply I
  unfolding finish map_some
  record_fragment s fin partial =
      if not fin
      then (ok none, record s { partial = some partial })
      else let (r, s') = finish (record s { partial = none }) partial in (map_some r, s')

  unfoldable pub continue_message : Session I → Frame → Option Partial → Reply I
  unfolding record_fragment
  continue_message s frame none = (err orphan_continuation, s)
  continue_message s frame (some partial) =
      let len = length partial.buf + length frame.payload in
      if ltb s.max_message len
      then (err (message_too_large len s.max_message), s)
      else record_fragment s frame.fin (record partial { buf = partial.buf ++ frame.payload })

  unfoldable pub start_message : Session I → Frame → Option Partial → Option I → Reply I
  unfolding record_fragment
  start_message s frame (some _) inflater = (err interleaved_message, s)
  start_message s frame none inflater =
      if frame.rsv1 && is_none inflater
      then (err unexpected_compression, s)
      else if ltb s.max_message (length frame.payload)
      then (err (message_too_large (length frame.payload) s.max_message), s)
      else record_fragment s frame.fin
          (record { opcode = frame.opcode; compressed = frame.rsv1; buf = frame.payload })

  unfoldable pub handle_data : Session I → Frame → OpCode → Reply I
  unfolding continue_message start_message
  handle_data s frame continuation =
      if frame.rsv1 then (err rsv1_on_continuation, s) else continue_message s frame s.partial
  handle_data s frame _ = start_message s frame s.partial s.inflater

  unfoldable pub handle : Session I → Frame → Reply I
  unfolding control map_some handle_data
  handle s frame =
      if is_control frame.opcode
      then (map_some (control frame), s)
      else handle_data s frame frame.opcode

-- ===== src/Ws/Session/Invariant.antt =====
-- What holds of a session after every frame, and what a delivered message is bounded by.
use pahoa.Prelude.{
  ℕ, ◌+◌, ◌≤◌, ◌≡◌, ◌≢◌, refl, ap, Bool, true, false, Option, none, some, List, [], ◌∷◌, length,
  length-append, arith, ltb, ◌&&◌, ◌++◌, is_none, if_both,
}
use pahoa.Prelude.Result.{Result, ok, err}
use pahoa.Ws.Frame.{OpCode, continuation, text, binary, close, ping, pong, Frame, is_control}
use pahoa.Ws.Session.{
  DeflateError, ProtocolError, Event, text_event, binary_event, ping_event, pong_event, close_event,
  Partial, Session, Reply, close_payload, control_by, control, deliver, map_some, inflated,
  finish_by, finish, record_fragment, continue_message, start_message, handle_data, handle,
}

module _ {I : Type 0} where
  abbrev pub HasInflater : Option I → Type 0
  HasInflater none = ⊥
  HasInflater (some i) = Unit

  -- The message in progress is within the limit, its opcode is a data opcode, and there is an
  -- inflater for it if it is compressed.
  abbrev pub FitsPartial : ℕ → Option I → Option Partial → Type 0
  FitsPartial max inflater none = Unit
  FitsPartial max inflater (some p) =
      (length p.buf ≤ max)
      × (is_control p.opcode ≡ false)
      × (p.opcode ≢ continuation)
      × (p.compressed ≡ true → HasInflater inflater)

  abbrev pub IsWellFormed : Session I → Type 0
  IsWellFormed s = FitsPartial s.max_message s.inflater s.partial

-- What a delivered message is bounded by: its size, or that of the frame for a control frame.
abbrev pub IsBounded : ℕ → Frame → Event → Type 0
IsBounded max frame (text_event bytes) = length bytes ≤ max
IsBounded max frame (binary_event bytes) = length bytes ≤ max
IsBounded max frame (ping_event bytes) = bytes ≡ frame.payload
IsBounded max frame (pong_event bytes) = bytes ≡ frame.payload
IsBounded max frame (close_event none) = Unit
IsBounded max frame (close_event (some (code, reason))) = length frame.payload ≡ 2 + length reason

abbrev pub IsBoundedReply : ℕ → Frame → Result ProtocolError (Option Event) → Type 0
IsBoundedReply max frame (ok (some e)) = IsBounded max frame e
IsBoundedReply max frame (ok none) = Unit
IsBoundedReply max frame (err e) = Unit

deliver-IsBounded :
    (max : ℕ) (frame : Frame) (o : OpCode) (bytes : List ℕ)
    → IsBoundedReply max frame (map_some (deliver o max bytes))
unfolding deliver map_some
deliver-IsBounded max frame text bytes = ground arith
deliver-IsBounded max frame _ bytes = ground arith

module _ {I : Type 0} (decompress : I → List ℕ → Result DeflateError (List ℕ) × I) where
  -- The session and the reply after a frame, for a session whose message is finished.
  abbrev Holds : ℕ → Frame → Reply I → Type 0
  Holds max frame (r, s) = IsWellFormed s × (s.max_message ≡ max) × IsBoundedReply max frame r

  inflated-Holds :
      (s : Session I) (frame : Frame) (o : OpCode) (r : Result DeflateError (List ℕ) × I)
      → s.partial ≡ none
      → Holds s.max_message frame
          (map_some (inflated decompress s o r).0, (inflated decompress s o r).1)
  unfolding inflated map_some
  inflated-Holds s frame o (ok p, i) e = (rw e tt, refl, deliver-IsBounded s.max_message frame o p)
  inflated-Holds s frame o (err x, i) e = (rw e tt, refl, tt)

  finish_by-Holds :
      (s : Session I) (frame : Frame) (p : Partial) (c : Bool) (i : Option I)
      → s.partial ≡ none
      → Holds s.max_message frame
          (map_some (finish_by decompress s p c i).0, (finish_by decompress s p c i).1)
  unfolding finish_by map_some
  finish_by-Holds s frame p false i e =
      (rw e tt, refl, deliver-IsBounded s.max_message frame p.opcode p.buf)
  finish_by-Holds s frame p true none e = (rw e tt, refl, tt)
  finish_by-Holds s frame p true (some i) e = inflated-Holds s frame p.opcode (decompress i p.buf) e

  record_fragment-Holds :
      (s : Session I) (frame : Frame) (fin : Bool) (p : Partial)
      → FitsPartial s.max_message s.inflater (some p)
      → Holds s.max_message frame (record_fragment decompress s fin p)
  unfolding record_fragment finish
  record_fragment-Holds s frame true p h =
      finish_by-Holds (record s { partial = none }) frame p p.compressed s.inflater refl
  record_fragment-Holds s frame false p h = (h, refl, tt)

  continue_message-Holds :
      (s : Session I) (frame : Frame) (m : Option Partial)
      → IsWellFormed s
      → FitsPartial s.max_message s.inflater m
      → Holds s.max_message frame (continue_message decompress s frame m)
  unfolding continue_message
  continue_message-Holds s frame none w h = (w, refl, tt)
  continue_message-Holds s frame (some p) w (hb, ho, hn, hc) =
      if_both (Holds s.max_message frame) (ltb s.max_message (length p.buf + length frame.payload))
        (λ _. (w, refl, tt))
        (λ fits.
          record_fragment-Holds s frame frame.fin (record p { buf = p.buf ++ frame.payload })
            (rw length-append (ground arith), ho, hn, hc))

  has_inflater : (b : Bool) (i : Option I) → (b && is_none i) ≡ false → b ≡ true → HasInflater i
  has_inflater true none h e = cc
  has_inflater true (some i) h e = tt
  has_inflater false i h e = cc

  start_message-Holds :
      (s : Session I) (frame : Frame) (m : Option Partial)
      → IsWellFormed s
      → is_control frame.opcode ≡ false
      → frame.opcode ≢ continuation
      → Holds s.max_message frame (start_message decompress s frame m s.inflater)
  unfolding start_message
  start_message-Holds s frame (some p) w c d = (w, refl, tt)
  start_message-Holds s frame none w c d =
      if_both (Holds s.max_message frame) (frame.rsv1 && is_none s.inflater) (λ _. (w, refl, tt))
        (λ has.
          if_both (Holds s.max_message frame) (ltb s.max_message (length frame.payload))
            (λ _. (w, refl, tt))
            (λ fits.
              record_fragment-Holds s frame frame.fin _
                (ground arith, c, d, has_inflater frame.rsv1 s.inflater has)))

  handle_data-Holds :
      (s : Session I) (frame : Frame) (o : OpCode)
      → frame.opcode ≡ o
      → IsWellFormed s
      → is_control o ≡ false
      → Holds s.max_message frame (handle_data decompress s frame o)
  unfolding handle_data is_control
  handle_data-Holds s frame continuation e w c =
      if_both (Holds s.max_message frame) frame.rsv1 (λ _. (w, refl, tt))
        (λ _. continue_message-Holds s frame s.partial w w)
  handle_data-Holds s frame text e w c =
      start_message-Holds s frame s.partial w (rw e refl) (λ q. cc (e, q))
  handle_data-Holds s frame binary e w c =
      start_message-Holds s frame s.partial w (rw e refl) (λ q. cc (e, q))
  handle_data-Holds s frame close e w c = cc
  handle_data-Holds s frame ping e w c = cc
  handle_data-Holds s frame pong e w c = cc

close_payload-IsBounded :
    (max : ℕ) (frame : Frame) (payload : List ℕ)
    → frame.payload ≡ payload
    → IsBoundedReply max frame (map_some (close_payload payload))
unfolding close_payload map_some
close_payload-IsBounded max frame [] e = tt
close_payload-IsBounded max frame (a ∷ []) e = tt
close_payload-IsBounded max frame (a ∷ b ∷ reason) e = ground (arith, ap length e)

control_by-IsBounded :
    (max : ℕ) (frame : Frame) (o : OpCode)
    → IsBoundedReply max frame (map_some (control_by o frame.payload))
unfolding control_by map_some
control_by-IsBounded max frame ping = refl
control_by-IsBounded max frame pong = refl
control_by-IsBounded max frame _ = close_payload-IsBounded max frame frame.payload refl

-- After any frame, accepted or refused, a well-formed session is well formed and has its limit: the
-- message in progress is within the limit, is text or binary, and has an inflater if it is
-- compressed. A message that is delivered is within the limit too, a ping or pong has the frame's
-- payload, and a close frame's reason is its payload without the two bytes of the code.
pub handle-IsWellFormed :
    {I : Type 0} (decompress : I → List ℕ → Result DeflateError (List ℕ) × I) (s : Session I)
    (frame : Frame)
    → IsWellFormed s
    → IsWellFormed (handle decompress s frame).1
      × ((handle decompress s frame).1.max_message ≡ s.max_message)
      × IsBoundedReply s.max_message frame (handle decompress s frame).0
unfolding handle control
handle-IsWellFormed decompress s frame w =
    if_both (Holds decompress s.max_message frame) (is_control frame.opcode)
      (λ _. (w, refl, control_by-IsBounded s.max_message frame frame.opcode))
      (handle_data-Holds decompress s frame frame.opcode refl w)

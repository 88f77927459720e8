-- ===== src/Ws/Session/Reassembly.antt =====
-- A fragmented message, with control frames among its fragments, against the same message in one frame.
use pahoa.Prelude.{
  ℕ, ◌+◌, ◌≤◌, ◌≡◌, ◌≢◌, refl, ap, ◌∙◌, sym, Bool, true, false, ◌&&◌, Option, none, some, List, [],
  ◌∷◌, ◌++◌, length, length-append, arith, is_none,
}
use mathlib.Core.List.{append_assoc}
use pahoa.Prelude.Result.{Result, ok}
use pahoa.Ws.Frame.{OpCode, continuation, text, binary, Frame, is_control}
use pahoa.Ws.Session.{
  DeflateError, ProtocolError, Event, Partial, Session, Reply, control, map_some, record_fragment,
  start_message, handle,
}

-- What may stand between the first fragment and the last: fragments, and control frames.
pub data Piece : Type 0 where
  fragment : List ℕ → Piece
  interleaved : Frame → Piece

abbrev pub continuation_frame : Bool → List ℕ → Frame
continuation_frame fin p = record { fin = fin; rsv1 = false; opcode = continuation; payload = p }

-- The frames that follow the first fragment; `p` is the last fragment's payload.
unfoldable pub frames : List Piece → List ℕ → List Frame
frames [] p = continuation_frame true p ∷ []
frames (fragment q ∷ pieces) p = continuation_frame false q ∷ frames pieces p
frames (interleaved f ∷ pieces) p = f ∷ frames pieces p

unfoldable pub payload : List Piece → List ℕ → List ℕ
payload [] p = p
payload (fragment q ∷ pieces) p = q ++ payload pieces p
payload (interleaved f ∷ pieces) p = payload pieces p

abbrev pub AreControl : List Piece → Type 0
AreControl [] = Unit
AreControl (fragment q ∷ pieces) = AreControl pieces
AreControl (interleaved f ∷ pieces) = (is_control f.opcode ≡ true) × AreControl pieces

module _ {I : Type 0} (decompress : I → List ℕ → Result DeflateError (List ℕ) × I) where
  -- The reply to the last of some frames, with the session after them.
  unfoldable pub feed : Session I → Result ProtocolError (Option Event) → List Frame → Reply I
  unfolding handle
  feed s r [] = (r, s)
  feed s r (f ∷ fs) = let (r', s') = handle decompress s f in feed s' r' fs

  feed_next :
      (s : Session I) (r : Result ProtocolError (Option Event)) (f : Frame) (fs : List Frame)
      {reply : Reply I}
      → handle decompress s f ≡ reply
      → feed s r (f ∷ fs) ≡ feed reply.1 reply.0 fs
  feed_next s r f fs e = unfold feed in ap (λ x. feed x.1 x.0 fs) e

  handle-control :
      (s : Session I) (f : Frame)
      → is_control f.opcode ≡ true
      → handle decompress s f ≡ (map_some (control f), s)
  unfolding handle
  handle-control s f c = rw c

  handle_fragment :
      (s : Session I) (m : Partial) (fin : Bool) (q : List ℕ)
      → length m.buf + length q ≤ s.max_message
      → handle decompress (record s { partial = some m }) (continuation_frame fin q)
        ≡ record_fragment decompress
            (record s { partial = some m })
            fin
            (record m { buf = m.buf ++ q })
  unfolding handle is_control
  handle_fragment s m fin q h = ground arith

  feed-frames :
      (s : Session I) (m : Partial) (r : Result ProtocolError (Option Event)) (pieces : List Piece)
      (p : List ℕ)
      → length m.buf + length (payload pieces p) ≤ s.max_message
      → AreControl pieces
      → feed (record s { partial = some m }) r (frames pieces p)
        ≡ record_fragment decompress s true (record m { buf = m.buf ++ payload pieces p })
  unfolding feed frames payload
  feed-frames s m r [] p h c =
      feed_next _ r (continuation_frame true p) [] (handle_fragment s m true p h)
  feed-frames s m r (fragment q ∷ pieces) p h c =
      feed_next _ r (continuation_frame false q) (frames pieces p)
        (handle_fragment s m false q (omega (arith, length-append q (payload pieces p))))
      ∙ feed-frames s (record m { buf = m.buf ++ q }) (ok none) pieces p
          (omega (arith, length-append q (payload pieces p), length-append m.buf q)) c
      ∙ ap (λ b. record_fragment decompress s true (record m { buf = b }))
          (append_assoc m.buf q (payload pieces p))
  feed-frames s m r (interleaved f ∷ pieces) p h (c, cs) =
      feed_next _ r f (frames pieces p) (handle-control (record s { partial = some m }) f c)
      ∙ feed-frames s m (map_some (control f)) pieces p h cs

  start_none :
      (s : Session I) (f : Frame)
      → (f.rsv1 && is_none s.inflater) ≡ false
      → length f.payload ≤ s.max_message
      → start_message decompress s f none s.inflater
        ≡ record_fragment decompress s f.fin
            (record { opcode = f.opcode; compressed = f.rsv1; buf = f.payload })
  unfolding start_message
  start_none s f i h = rw i (ground arith)

  start_whole :
      (s : Session I) (o : OpCode) (fin rsv1 : Bool) (p : List ℕ)
      → s.partial ≡ none
      → is_control o ≡ false
      → o ≢ continuation
      → (rsv1 && is_none s.inflater) ≡ false
      → length p ≤ s.max_message
      → handle decompress s (record { fin = fin; rsv1 = rsv1; opcode = o; payload = p })
        ≡ record_fragment decompress s fin (record { opcode = o; compressed = rsv1; buf = p })
  unfolding handle is_control
  start_whole s continuation fin rsv1 p e c d i h = absurd (d refl)
  start_whole s text fin rsv1 p e c d i h =
      let f : Frame = record { fin = fin; rsv1 = rsv1; opcode = text; payload = p } in
      ap (λ m. start_message decompress s f m s.inflater) e ∙ start_none s f i h
  start_whole s binary fin rsv1 p e c d i h =
      let f : Frame = record { fin = fin; rsv1 = rsv1; opcode = binary; payload = p } in
      ap (λ m. start_message decompress s f m s.inflater) e ∙ start_none s f i h
  start_whole s _ fin rsv1 p e c d i h = cc

-- A text or binary message that is sent in fragments, with control frames among them, has the reply
-- of the same message in one frame, and leaves the same session. The session has no message in
-- progress, has an inflater if the message is compressed, and the whole payload is within its limit.
pub feed_reassembles :
    {I : Type 0} (decompress : I → List ℕ → Result DeflateError (List ℕ) × I) (s : Session I)
    (o : OpCode) (rsv1 : Bool) (head : List ℕ) (pieces : List Piece) (last : List ℕ)
    (r : Result ProtocolError (Option Event))
    → s.partial ≡ none
    → is_control o ≡ false
    → o ≢ continuation
    → (rsv1 && is_none s.inflater) ≡ false
    → length head + length (payload pieces last) ≤ s.max_message
    → AreControl pieces
    → feed decompress s r
        (record { fin = false; rsv1 = rsv1; opcode = o; payload = head } ∷ frames pieces last)
      ≡ handle decompress s
          (record { fin = true; rsv1 = rsv1; opcode = o; payload = head ++ payload pieces last })
unfolding record_fragment handle
feed_reassembles decompress s o rsv1 head pieces last r e c d i h cs =
    feed_next decompress s r (record { fin = false; rsv1 = rsv1; opcode = o; payload = head })
      (frames pieces last) (start_whole decompress s o false rsv1 head e c d i (omega arith))
    ∙ feed-frames decompress s (record { opcode = o; compressed = rsv1; buf = head }) (ok none)
        pieces last h cs
    ∙ sym (
        start_whole decompress s o true rsv1 (head ++ payload pieces last) e c d i
          (omega (arith, length-append head (payload pieces last))))

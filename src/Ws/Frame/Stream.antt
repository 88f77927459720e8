-- ===== src/Ws/Frame/Stream.antt =====
-- Decoding as bytes arrive: what a prefix has settled, more bytes do not change.
use pahoa.Prelude.{
  ℕ, ◌+◌, ◌≤◌, ◌≡◌, ◌≢◌, refl, ◌∙◌, ap, Bool, true, false, Option, none, some, List, [], ◌∷◌, ◌++◌,
  length, drop, length-append, length-drop, take-append_left, drop-append_left, arith, inl, inr,
  Option-cases,
}
use pahoa.Prelude.Result.{Result, ok, err, ◌>>=◌, ◌>>◌}
use pahoa.Ws.Mask.{Key, Endian}
use pahoa.Ws.Frame.{
  OpCode, Frame, FrameError, FrameHeader, Role, check_mask, check_length, check_control,
  payload_length, key_of, read_mask, opcode_or_err, assemble, parse_rest, parse_payload, parse_bits,
  parse_flags, parse_header, take_frame, finish_decode, decode_as,
}

key_of-append : (buf more : List ℕ) → 4 ≤ length buf → key_of (buf ++ more) ≡ key_of buf
unfolding key_of
key_of-append (a ∷ b ∷ c ∷ d ∷ rest) more h = refl
key_of-append [] more h = absurd (omega arith)
key_of-append (a ∷ []) more h = absurd (omega arith)
key_of-append (a ∷ b ∷ []) more h = absurd (omega arith)
key_of-append (a ∷ b ∷ c ∷ []) more h = absurd (omega arith)

checks-append :
    (a b : Result FrameError (Unit {0})) (x y : Option FrameHeader)
    → (x ≢ none → y ≡ x)
    → (do a; b; ok x) ≢ ok none
    → (do a; b; ok y) ≡ (do a; b; ok x)
checks-append (err e) b x y h d = refl
checks-append (ok _) (err e) x y h d = refl
checks-append (ok _) (ok _) x y h d = ap ok (h (λ e. d (ap ok e)))

opcode-append :
    (a : Result FrameError OpCode) (f g : OpCode → Result FrameError (Option FrameHeader))
    → ((o : OpCode) → f o ≢ ok none → g o ≡ f o)
    → (a >>= f) ≢ ok none
    → (a >>= g) ≡ (a >>= f)
opcode-append (err e) f g h d = refl
opcode-append (ok o) f g h d = h o d

check-append :
    (a : Result FrameError (Unit {0})) (x y : Result FrameError (Option FrameHeader))
    → (x ≢ ok none → y ≡ x)
    → (a >> x) ≢ ok none
    → (a >> y) ≡ (a >> x)
check-append (err e) x y h d = refl
check-append (ok _) x y h d = h d

module _ (buf more : List ℕ) where
  read_mask-append :
      (masked : Bool) (offset : ℕ) (m : Option Key × ℕ)
      → read_mask masked buf offset ≡ some m
      → read_mask masked (buf ++ more) offset ≡ some m
  unfolding read_mask
  read_mask-append false offset m e = e
  read_mask-append true offset m e = ground (
    arith,
    length-append buf more,
    length-drop offset buf,
    drop-append_left offset buf more,
    key_of-append (drop offset buf) more,
  )

  payload_length-append :
      (s : ℕ) (p : ℕ × ℕ) → payload_length s buf ≡ some p → payload_length s (buf ++ more) ≡ some p
  unfolding payload_length
  payload_length-append s p e = ground (
    arith,
    length-append buf more,
    length-drop 2 buf,
    drop-append_left 2 buf more,
    take-append_left 2 (drop 2 buf) more,
    take-append_left 8 (drop 2 buf) more,
  )

  assemble-append :
      (fin rsv1 : Bool) (o : OpCode) (n : ℕ) (masked : Bool) (offset : ℕ)
      → assemble fin rsv1 o n (read_mask masked buf offset) ≢ none
      → assemble fin rsv1 o n (read_mask masked (buf ++ more) offset)
        ≡ assemble fin rsv1 o n (read_mask masked buf offset)
  unfolding assemble
  assemble-append fin rsv1 o n masked offset d = elim (Option-cases (read_mask masked buf offset)) [
    | inl e ↦ absurd (d (rw e))
    | inr (m, e) ↦ rw (read_mask-append masked offset m e, e)
  ]

  parse_rest-append :
      (max : ℕ) (fin rsv1 : Bool) (o : OpCode) (masked : Bool) (n lb : ℕ)
      → parse_rest buf max fin rsv1 o masked n lb ≢ ok none
      → parse_rest (buf ++ more) max fin rsv1 o masked n lb
        ≡ parse_rest buf max fin rsv1 o masked n lb
  unfolding parse_rest
  parse_rest-append max fin rsv1 o masked n lb d =
      checks-append (check_length n max) (check_control o fin n) _ _
        (λ settled. assemble-append fin rsv1 o n masked (2 + lb) settled) d

  parse_payload-append :
      (max : ℕ) (fin rsv1 : Bool) (o : OpCode) (masked : Bool) (s : ℕ)
      → parse_payload buf max fin rsv1 o masked (payload_length s buf) ≢ ok none
      → parse_payload (buf ++ more) max fin rsv1 o masked (payload_length s (buf ++ more))
        ≡ parse_payload buf max fin rsv1 o masked (payload_length s buf)
  unfolding parse_payload
  parse_payload-append max fin rsv1 o masked s d = elim (Option-cases (payload_length s buf)) [
    | inl e ↦ absurd (d (rw e))
    | inr ((n, lb), e) ↦
        rw (payload_length-append s (n, lb) e, e)
          (parse_rest-append max fin rsv1 o masked n lb (λ q. d (rw e q)))
  ]

  parse_bits-append :
      (max : ℕ) (role : Role) (fin rsv1 reserved : Bool) (op : ℕ) (masked : Bool) (s : ℕ)
      → parse_bits buf max role fin rsv1 reserved op masked s ≢ ok none
      → parse_bits (buf ++ more) max role fin rsv1 reserved op masked s
        ≡ parse_bits buf max role fin rsv1 reserved op masked s
  unfolding parse_bits
  parse_bits-append max role fin rsv1 true op masked s d = refl
  parse_bits-append max role fin rsv1 false op masked s d =
      opcode-append (opcode_or_err op) _ _
        (λ o.
          check-append (check_mask role masked) _ _ (parse_payload-append max fin rsv1 o masked s))
        d

-- A header, or a refusal, that a prefix has settled.
parse_header-append :
    (buf more : List ℕ) (max : ℕ) (role : Role)
    → parse_header buf max role ≢ ok none
    → parse_header (buf ++ more) max role ≡ parse_header buf max role
unfolding parse_header parse_flags
parse_header-append [] more max role d = absurd (d refl)
parse_header-append (x ∷ []) more max role d = absurd (d refl)
parse_header-append (x ∷ y ∷ tail) more max role d =
    parse_bits-append (x ∷ y ∷ tail) more max role _ _ _ _ _ _ d

take_frame-append :
    (ne : Endian) (buf more : List ℕ) (h : FrameHeader) (f : Frame) (rest : List ℕ)
    → take_frame ne buf (some h) ≡ (some f, rest)
    → take_frame ne (buf ++ more) (some h) ≡ (some f, rest ++ more)
unfolding take_frame
take_frame-append ne buf more h f rest e = ground (
  arith,
  length-append buf more,
  length-drop h.len buf,
  drop-append_left h.len buf more,
  take-append_left h.payload_len (drop h.len buf) more,
  drop-append_left h.payload_len (drop h.len buf) more,
)

finish_decode-append :
    (ne : Endian) (buf more : List ℕ) (r : Result FrameError (Option FrameHeader)) (f : Frame)
    (rest : List ℕ)
    → finish_decode ne buf r ≡ (ok (some f), rest)
    → (r ≢ ok none) × (finish_decode ne (buf ++ more) r ≡ (ok (some f), rest ++ more))
unfolding finish_decode
finish_decode-append ne buf more (err x) f rest e = cc
finish_decode-append ne buf more (ok none) f rest e = unfold take_frame in cc
finish_decode-append ne buf more (ok (some h)) f rest e =
    ((λ q. cc), rw (take_frame-append ne buf more h f rest (cc)))

-- Where a buffer gives a frame, the buffer with more bytes behind gives the same frame, and those
-- bytes stay behind what was left.
pub decode_as-append :
    (ne : Endian) (buf more : List ℕ) (max : ℕ) (role : Role) (f : Frame) (rest : List ℕ)
    → decode_as ne buf max role ≡ (ok (some f), rest)
    → decode_as ne (buf ++ more) max role ≡ (ok (some f), rest ++ more)
unfolding decode_as
decode_as-append ne buf more max role f rest e =
    let (d, e') = finish_decode-append ne buf more (parse_header buf max role) f rest e in
    rw (parse_header-append buf more max role d) e'

finish_decode-err :
    (ne : Endian) (buf : List ℕ) (r : Result FrameError (Option FrameHeader)) (x : FrameError)
    (rest : List ℕ)
    → finish_decode ne buf r ≡ (err x, rest)
    → r ≡ err x
unfolding finish_decode
finish_decode-err ne buf (err y) x rest e = cc
finish_decode-err ne buf (ok h) x rest e = cc

-- Where a buffer is refused, the buffer with more bytes behind is refused for the same reason, and
-- none of it is taken.
pub decode_as-append_err :
    (ne : Endian) (buf more : List ℕ) (max : ℕ) (role : Role) (x : FrameError) (rest : List ℕ)
    → decode_as ne buf max role ≡ (err x, rest)
    → decode_as ne (buf ++ more) max role ≡ (err x, buf ++ more)
unfolding decode_as finish_decode
decode_as-append_err ne buf more max role x rest e =
    let refused = finish_decode-err ne buf (parse_header buf max role) x rest e in
    let same = parse_header-append buf more max role (λ q. cc (refused, q)) in
    rw (same ∙ refused) refl

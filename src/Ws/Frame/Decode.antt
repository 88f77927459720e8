-- ===== src/Ws/Frame/Decode.antt =====
-- Decoding any buffer, well formed or not.
use Prim.Native.Nat.{bit_and}
use pahoa.Prelude.{
  ℕ, ◌+◌, ◌≤◌, ◌≡◌, refl, sym, ◌∙◌, ap, Bool, true, false, not, eqb, if◌then◌else◌, Option, none,
  some, List, [], ◌∷◌, length, take, drop, length-take, length-drop, drop-drop, arith,
}
use pahoa.Prelude.Result.{Result, ok, err, >>=-eq-ok}
use pahoa.Ws.Bytes.{from_be_bytes}
use pahoa.Ws.Mask.{Key, Endian}
use pahoa.Ws.Mask.Laws.{length-unmask}
use pahoa.Ws.Frame.{
  OpCode, is_control, Frame, FrameError, FrameHeader, Role, check_mask, check_length, check_control,
  payload_length, key_of, read_mask, opcode_or_err, parse_rest, parse_payload, parse_bits,
  parse_flags, parse_header, unmask_by, take_frame, finish_decode, decode_as,
}

-- The header by its second byte: a bit for the mask and seven bits for the length, or for the number
-- of bytes behind that hold it; then the four bytes of the mask's key, if there is one.
abbrev pub second_byte : List ℕ → ℕ
second_byte (first ∷ second ∷ tail) = second
second_byte _ = 0

abbrev pub short_field : List ℕ → ℕ
short_field buf = bit_and (second_byte buf) 0x7f

abbrev pub mask_bit : List ℕ → Bool
mask_bit buf = not (eqb (bit_and (second_byte buf) 0x80) 0)

abbrev pub length_bytes : ℕ → ℕ
length_bytes s = if eqb s 126 then 2 else if eqb s 127 then 8 else 0

abbrev pub stated_length : ℕ → List ℕ → ℕ
stated_length s buf =
    if eqb s 126
    then from_be_bytes (take 2 (drop 2 buf))
    else if eqb s 127
    then from_be_bytes (take 8 (drop 2 buf))
    else s

abbrev pub header_size : ℕ → Bool → ℕ
header_size s masked = 2 + length_bytes s + (if masked then 4 else 0)

abbrev pub stated_key : ℕ → Bool → List ℕ → Option Key
stated_key s masked buf = if masked then some (key_of (drop (2 + length_bytes s) buf)) else none

payload_length-stated :
    (s n lb : ℕ) (buf : List ℕ)
    → payload_length s buf ≡ some (n, lb)
    → (n ≡ stated_length s buf) × (lb ≡ length_bytes s)
unfolding payload_length
payload_length-stated s n lb buf e = ground arith

-- What a parsed header promises.
pub record IsSound (buf : List ℕ) (s : ℕ) (masked : Bool) (max_payload : ℕ) (h : FrameHeader)
    : Type 0 where
  pub fits : h.payload_len ≤ max_payload
  pub whole : is_control h.opcode ≡ true → h.fin ≡ true
  pub short : is_control h.opcode ≡ true → h.payload_len ≤ 125
  pub sized : h.len ≡ header_size s masked
  pub stated : h.payload_len ≡ stated_length s buf
  pub keyed : h.mask ≡ stated_key s masked buf

parse_rest-IsSound :
    (buf : List ℕ) (max s : ℕ) (fin rsv1 : Bool) (o : OpCode) (masked : Bool) {h : FrameHeader}
    → parse_rest buf max fin rsv1 o masked (stated_length s buf) (length_bytes s) ≡ ok (some h)
    → IsSound buf s masked max h
unfolding parse_rest check_length check_control read_mask
parse_rest-IsSound buf max s fin rsv1 o true e = ground arith
parse_rest-IsSound buf max s fin rsv1 o false e = ground arith

parse_payload-IsSound :
    (buf : List ℕ) (max s : ℕ) (fin rsv1 : Bool) (o : OpCode) (masked : Bool) (l : Option (ℕ × ℕ))
    {h : FrameHeader}
    → payload_length s buf ≡ l
    → parse_payload buf max fin rsv1 o masked l ≡ ok (some h)
    → IsSound buf s masked max h
unfolding parse_payload
parse_payload-IsSound buf max s fin rsv1 o masked none l e = cc
parse_payload-IsSound buf max s fin rsv1 o masked (some (n, lb)) l e =
    let (en, eb) = payload_length-stated s n lb buf l in
    parse_rest-IsSound buf max s fin rsv1 o masked (cc)

parse_bits-IsSound :
    (buf : List ℕ) (max : ℕ) (role : Role) (fin rsv1 reserved : Bool) (op : ℕ) (masked : Bool)
    (s : ℕ) {h : FrameHeader}
    → parse_bits buf max role fin rsv1 reserved op masked s ≡ ok (some h)
    → IsSound buf s masked max h
unfolding parse_bits
parse_bits-IsSound buf max role fin rsv1 true op masked s e = cc
parse_bits-IsSound buf max role fin rsv1 false op masked s e =
    let (o, eo, e₁) = >>=-eq-ok (opcode_or_err op) _ e in
    let (_, em, e₂) = >>=-eq-ok (check_mask role masked) _ e₁ in
    parse_payload-IsSound buf max s fin rsv1 o masked (payload_length s buf) refl e₂

parse_header-IsSound :
    (buf : List ℕ) (max : ℕ) (role : Role) {h : FrameHeader}
    → parse_header buf max role ≡ ok (some h)
    → IsSound buf (short_field buf) (mask_bit buf) max h
unfolding parse_header parse_flags
parse_header-IsSound [] max role e = cc
parse_header-IsSound (x ∷ []) max role e = cc
parse_header-IsSound (x ∷ y ∷ tail) max role e = parse_bits-IsSound _ max role _ _ _ _ _ _ e

length-unmask_by :
    (ne : Endian) (mask : Option Key) (p : List ℕ) → length (unmask_by ne mask p) ≡ length p
unfolding unmask_by
length-unmask_by ne none p = refl
length-unmask_by ne (some key) p = length-unmask ne p key

module _ (ne : Endian) (buf : List ℕ) (f : Frame) (rest : List ℕ) where
  -- What a frame with such a header is, and what it took from the front of the buffer.
  abbrev IsDecoded : ℕ → Bool → ℕ → Type 0
  IsDecoded s masked max =
      let size = header_size s masked in
      let n = stated_length s buf in
      (length f.payload ≤ max)
      × (is_control f.opcode ≡ true → (f.fin ≡ true) × (length f.payload ≤ 125))
      × (length f.payload ≡ n)
      × (f.payload ≡ unmask_by ne (stated_key s masked buf) (take n (drop size buf)))
      × (rest ≡ drop (size + n) buf)
      × (length buf ≡ size + n + length rest)

  taken :
      (h : FrameHeader)
      → take_frame ne buf (some h) ≡ (some f, rest)
      → (h.len + h.payload_len ≤ length buf)
        × (f.fin ≡ h.fin)
        × (f.opcode ≡ h.opcode)
        × (f.payload ≡ unmask_by ne h.mask (take h.payload_len (drop h.len buf)))
        × (rest ≡ drop h.payload_len (drop h.len buf))
  unfolding take_frame
  taken h e = ground arith

  length-payload :
      (h : FrameHeader)
      → h.len + h.payload_len ≤ length buf
      → f.payload ≡ unmask_by ne h.mask (take h.payload_len (drop h.len buf))
      → length f.payload ≡ h.payload_len
  length-payload h fits e =
      ap length e
      ∙ length-unmask_by ne h.mask (take h.payload_len (drop h.len buf))
      ∙ omega (arith, length-take h.payload_len (drop h.len buf), length-drop h.len buf)

  take_frame_sound :
      (s : ℕ) (masked : Bool) (max : ℕ) (h : FrameHeader)
      → IsSound buf s masked max h
      → take_frame ne buf (some h) ≡ (some f, rest)
      → IsDecoded s masked max
  take_frame_sound s masked max h sound e =
      let (fits, ef, eo, ep, er) = taken h e in
      let n = length-payload h fits ep in
      let dropped = er ∙ drop-drop h.payload_len h.len buf in
      (
        omega (arith, sound.fits),
        λ c. (
          ef ∙ sound.whole (sym (ap is_control eo) ∙ c),
          omega (arith, sound.short (sym (ap is_control eo) ∙ c)),
        ),
        n ∙ sound.stated,
        cc (sound.sized, sound.stated, sound.keyed),
        cc (sound.sized, sound.stated, dropped),
        omega (
          arith,
          sound.sized,
          sound.stated,
          ap length er,
          length-drop h.payload_len (drop h.len buf),
          length-drop h.len buf,
        ),
      )

  finish_decode_sound :
      (s : ℕ) (masked : Bool) (max : ℕ) (r : Result FrameError (Option FrameHeader))
      → ((h : FrameHeader) → r ≡ ok (some h) → IsSound buf s masked max h)
      → finish_decode ne buf r ≡ (ok (some f), rest)
      → IsDecoded s masked max
  unfolding finish_decode
  finish_decode_sound s masked max (err x) sound e = cc
  finish_decode_sound s masked max (ok none) sound e = unfold take_frame in cc
  finish_decode_sound s masked max (ok (some h)) sound e =
      take_frame_sound s masked max h (sound h refl) (cc)

-- Whatever the bytes, a frame that is decoded has a payload within the limit, and a control frame is
-- whole and has at most 125 bytes. The payload is as long as the header states, and is what follows the
-- header, unmasked with the key that it has where the mask bit is set. The buffer loses exactly the
-- header, of two bytes, those of a longer length and those of the key, and the payload, and keeps the
-- rest.
pub decode_as_sound :
    (ne : Endian) (buf : List ℕ) (max : ℕ) (role : Role) (f : Frame) (rest : List ℕ)
    → decode_as ne buf max role ≡ (ok (some f), rest)
    → let s = short_field buf in
      let masked = mask_bit buf in
      let size = header_size s masked in
      let n = stated_length s buf in
      (length f.payload ≤ max)
      × (is_control f.opcode ≡ true → (f.fin ≡ true) × (length f.payload ≤ 125))
      × (length f.payload ≡ n)
      × (f.payload ≡ unmask_by ne (stated_key s masked buf) (take n (drop size buf)))
      × (rest ≡ drop (size + n) buf)
      × (length buf ≡ size + n + length rest)
unfolding decode_as
decode_as_sound ne buf max role f rest =
    finish_decode_sound ne buf f rest (short_field buf) (mask_bit buf) max
      (parse_header buf max role) (λ h. parse_header-IsSound buf max role)

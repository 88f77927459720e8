-- ===== src/Ws/Frame.antt =====
-- crates/pahoa-net/src/ws/frame.rs, reading: the header of an RFC 6455 frame, and taking one frame off
-- a buffer. A byte is a number below 256, and the buffer is returned beside the result.
pub mod Header
pub mod Decode
pub mod Stream
use Prim.Native.Nat.{bit_and}
use pahoa.Prelude.{
  ℕ, ◌+◌, Bool, true, false, not, Option, none, some, List, [], ◌∷◌, length, take, drop, ltb, eqb,
  if◌then◌else◌,
}
use pahoa.Prelude.Result.{Result, ok, err, ◌>>=◌, ◌>>◌}
use pahoa.Ws.Bytes.{from_be_bytes}
use pahoa.Ws.Mask.{Key, Endian, unmask}

pub data OpCode : Type 0 where
  continuation text binary close ping pong : OpCode

unfoldable pub from_bits : ℕ → Option OpCode
from_bits bits =
    if eqb bits 0x0
    then some continuation
    else if eqb bits 0x1
    then some text
    else if eqb bits 0x2
    then some binary
    else if eqb bits 0x8
    then some close
    else if eqb bits 0x9
    then some ping
    else if eqb bits 0xa
    then some pong
    else none

unfoldable pub bits : OpCode → ℕ
bits continuation = 0x0
bits text = 0x1
bits binary = 0x2
bits close = 0x8
bits ping = 0x9
bits pong = 0xa

unfoldable pub is_control : OpCode → Bool
is_control close = true
is_control ping = true
is_control pong = true
is_control _ = false

pub record Frame : Type 0 where
  pub fin : Bool
  pub rsv1 : Bool
  pub opcode : OpCode
  pub payload : List ℕ

pub data FrameError : Type 0 where
  reserved_opcode : ℕ → FrameError
  reserved_bits : FrameError
  unmasked : FrameError
  masked_from_server : FrameError
  control_too_large : ℕ → FrameError
  fragmented_control : FrameError
  too_large : ℕ → ℕ → FrameError

pub record FrameHeader : Type 0 where
  pub fin : Bool
  pub rsv1 : Bool
  pub opcode : OpCode
  pub mask : Option Key
  pub payload_len : ℕ
  pub len : ℕ

pub data Role : Type 0 where
  server client : Role

unfoldable pub check_mask : Role → Bool → Result FrameError (Unit {0})
check_mask server false = err unmasked
check_mask client true = err masked_from_server
check_mask _ _ = ok tt

-- The payload's length and the number of bytes that hold it; `none` where they are not there yet.
unfoldable pub payload_length : ℕ → List ℕ → Option (ℕ × ℕ)
payload_length short_len buf =
    if eqb short_len 126
    then (if ltb (length buf) 4 then none else some (from_be_bytes (take 2 (drop 2 buf)), 2))
    else if eqb short_len 127
    then (if ltb (length buf) 10 then none else some (from_be_bytes (take 8 (drop 2 buf)), 8))
    else some (short_len, 0)

unfoldable pub check_length : ℕ → ℕ → Result FrameError (Unit {0})
check_length payload_len max_payload =
    if ltb max_payload payload_len then err (too_large payload_len max_payload) else ok tt

unfoldable pub check_control : OpCode → Bool → ℕ → Result FrameError (Unit {0})
check_control opcode fin payload_len =
    if is_control opcode
    then (if not fin
        then err fragmented_control
        else if ltb 125 payload_len
        then err (control_too_large payload_len)
        else ok tt)
    else ok tt

unfoldable pub key_of : List ℕ → Key
key_of (a ∷ b ∷ c ∷ d ∷ _) = record { k0 = a; k1 = b; k2 = c; k3 = d }
key_of _ = record { k0 = 0; k1 = 0; k2 = 0; k3 = 0 }

-- The mask and the length of the header; `none` where the key is not there yet.
unfoldable pub read_mask : Bool → List ℕ → ℕ → Option (Option Key × ℕ)
read_mask true buf mask_offset =
    if ltb (length buf) (mask_offset + 4)
    then none
    else some (some (key_of (drop mask_offset buf)), mask_offset + 4)
read_mask false buf mask_offset = some (none, mask_offset)

-- `from_bits(…).ok_or(…)?`
unfoldable pub opcode_or_err : ℕ → Result FrameError OpCode
opcode_or_err bits = elim (from_bits bits) [ some o ↦ ok o | none ↦ err (reserved_opcode bits) ]

unfoldable pub assemble : Bool → Bool → OpCode → ℕ → Option (Option Key × ℕ) → Option FrameHeader
assemble fin rsv1 opcode payload_len none = none
assemble fin rsv1 opcode payload_len (some (mask, len)) = some (record {
  fin = fin;
  rsv1 = rsv1;
  opcode = opcode;
  mask = mask;
  payload_len = payload_len;
  len = len;
})

-- What follows the two bytes' flags, once the length's bytes are there.
unfoldable pub parse_rest :
    List ℕ → ℕ → Bool → Bool → OpCode → Bool → ℕ → ℕ → Result FrameError (Option FrameHeader)
unfolding assemble
parse_rest buf max_payload fin rsv1 opcode masked payload_len len_bytes = do
  check_length payload_len max_payload
  check_control opcode fin payload_len
  ok (assemble fin rsv1 opcode payload_len (read_mask masked buf (2 + len_bytes)))

-- `none` where the length's bytes are not there yet.
unfoldable pub parse_payload :
    List ℕ
    → ℕ
    → Bool
    → Bool
    → OpCode
    → Bool
    → Option (ℕ × ℕ)
    → Result FrameError (Option FrameHeader)
parse_payload buf max_payload fin rsv1 opcode masked none = ok none
parse_payload buf max_payload fin rsv1 opcode masked (some (payload_len, len_bytes)) =
    parse_rest buf max_payload fin rsv1 opcode masked payload_len len_bytes

-- The checks on the flags of the first two bytes, in the source's order.
unfoldable pub parse_bits :
    List ℕ → ℕ → Role → Bool → Bool → Bool → ℕ → Bool → ℕ → Result FrameError (Option FrameHeader)
unfolding parse_payload
parse_bits buf max_payload role fin rsv1 reserved op masked short_len =
    if reserved then err reserved_bits else do
      opcode ← opcode_or_err op
      check_mask role masked
      parse_payload buf max_payload fin rsv1 opcode masked (payload_length short_len buf)

unfoldable pub parse_flags : List ℕ → ℕ → Role → ℕ → ℕ → Result FrameError (Option FrameHeader)
parse_flags buf max_payload role first second =
    parse_bits buf max_payload role (not (eqb (bit_and first 0x80) 0))
      (not (eqb (bit_and first 0x40) 0)) (not (eqb (bit_and first 0x30) 0)) (bit_and first 0x0f)
      (not (eqb (bit_and second 0x80) 0)) (bit_and second 0x7f)

unfoldable pub parse_header : List ℕ → ℕ → Role → Result FrameError (Option FrameHeader)
parse_header (first ∷ second ∷ tail) max_payload role =
    parse_flags (first ∷ second ∷ tail) max_payload role first second
parse_header _ max_payload role = ok none

unfoldable pub unmask_by : Endian → Option Key → List ℕ → List ℕ
unmask_by ne none payload = payload
unmask_by ne (some key) payload = unmask ne payload key

unfoldable pub take_frame : Endian → List ℕ → Option FrameHeader → Option Frame × List ℕ
take_frame ne buf none = (none, buf)
take_frame ne buf (some header) =
    if ltb (length buf) (header.len + header.payload_len)
    then (none, buf)
    else let body = drop header.len buf in
      (
        some (record {
          fin = header.fin;
          rsv1 = header.rsv1;
          opcode = header.opcode;
          payload = unmask_by ne header.mask (take header.payload_len body);
        }),
        drop header.payload_len body,
      )

unfoldable pub finish_decode :
    Endian
    → List ℕ
    → Result FrameError (Option FrameHeader)
    → Result FrameError (Option Frame) × List ℕ
finish_decode ne buf (err e) = (err e, buf)
finish_decode ne buf (ok header) = let (frame, rest) = take_frame ne buf header in (ok frame, rest)

-- The second component is what is left in the buffer; an error leaves it whole.
unfoldable pub decode_as : Endian → List ℕ → ℕ → Role → Result FrameError (Option Frame) × List ℕ
decode_as ne buf max_payload role = finish_decode ne buf (parse_header buf max_payload role)

unfoldable pub decode : Endian → List ℕ → ℕ → Result FrameError (Option Frame) × List ℕ
decode ne buf max_payload = decode_as ne buf max_payload server

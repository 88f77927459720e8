-- ===== src/Ws/Frame/Header.antt =====
-- Reading back a header byte by byte.
use Prim.Native.Nat.{bit_and, bit_or}
use pahoa.Prelude.{
  ℕ, ◌+◌, ◌≤◌, ◌<◌, ◌^◌, ◌≡◌, refl, ◌∙◌, Bool, true, false, not, Option, some, List, ◌∷◌, ◌++◌, eqb,
  arith, if◌then◌else◌,
}
use pahoa.Prelude.Bits.{bit_and_fin, bit_and_low7}
use pahoa.Prelude.Result.{ok}
use pahoa.Ws.Bytes.{to_be_bytes, from_be_bytes-to_be_bytes}
use pahoa.Ws.Mask.{Key}
use pahoa.Ws.Frame.{
  OpCode, continuation, text, binary, close, ping, pong, bits, from_bits, Role, check_mask,
  is_control, check_length, check_control, read_mask, payload_length, opcode_or_err, parse_rest,
  parse_bits, parse_flags,
}

-- The first byte of a whole frame that is written.
abbrev pub first_byte : OpCode → Bool → ℕ
first_byte opcode rsv1 =
    let fin = bit_or (bits opcode) 0x80 in if rsv1 then bit_or fin 0x40 else fin

first_byte_flags :
    (o : OpCode) (rsv1 : Bool)
    → (not (eqb (bit_and (first_byte o rsv1) 0x80) 0) ≡ true)
      × (not (eqb (bit_and (first_byte o rsv1) 0x40) 0) ≡ rsv1)
      × (not (eqb (bit_and (first_byte o rsv1) 0x30) 0) ≡ false)
      × (opcode_or_err (bit_and (first_byte o rsv1) 0x0f) ≡ ok o)
unfolding bits from_bits opcode_or_err
first_byte_flags continuation true = (refl, refl, refl, refl)
first_byte_flags continuation false = (refl, refl, refl, refl)
first_byte_flags text true = (refl, refl, refl, refl)
first_byte_flags text false = (refl, refl, refl, refl)
first_byte_flags binary true = (refl, refl, refl, refl)
first_byte_flags binary false = (refl, refl, refl, refl)
first_byte_flags close true = (refl, refl, refl, refl)
first_byte_flags close false = (refl, refl, refl, refl)
first_byte_flags ping true = (refl, refl, refl, refl)
first_byte_flags ping false = (refl, refl, refl, refl)
first_byte_flags pong true = (refl, refl, refl, refl)
first_byte_flags pong false = (refl, refl, refl, refl)

-- The second byte: the mask bit, and seven bits of length.
pub second_byte_plain :
    (n : ℕ) → n < 128 → (not (eqb (bit_and n 0x80) 0) ≡ false) × (bit_and n 0x7f ≡ n)
second_byte_plain n h = ground (arith, bit_and_fin n, bit_and_low7 n)

pub second_byte_masked :
    (n : ℕ) → n < 128 → (not (eqb (bit_and (n + 128) 0x80) 0) ≡ true) × (bit_and (n + 128) 0x7f ≡ n)
second_byte_masked n h = ground (arith, bit_and_fin (n + 128), bit_and_low7 (n + 128))

-- The length field in its three forms.
pub payload_length_short : (n : ℕ) (buf : List ℕ) → n < 126 → payload_length n buf ≡ some (n, 0)
unfolding payload_length
payload_length_short n buf h = ground arith

pub payload_length_two :
    (x y n : ℕ) (tail : List ℕ)
    → n < 65536
    → payload_length 126 (x ∷ y ∷ (to_be_bytes 2 n ++ tail)) ≡ some (n, 2)
unfolding payload_length to_be_bytes
payload_length_two x y n tail h = ground (arith, from_be_bytes-to_be_bytes 2 n (omega arith))

pub payload_length_eight :
    (x y n : ℕ) (tail : List ℕ)
    → n < 2 ^ 64
    → payload_length 127 (x ∷ y ∷ (to_be_bytes 8 n ++ tail)) ≡ some (n, 8)
unfolding payload_length to_be_bytes
payload_length_eight x y n tail h = ground (arith, from_be_bytes-to_be_bytes 8 n (omega arith))

-- A header whose fields are there parses to them.
module _ (buf : List ℕ) (max_payload : ℕ) (role : Role) (o : OpCode) (rsv1 masked : Bool)
    (second short_len payload_len len_bytes : ℕ) where
  parse_flags_written :
      not (eqb (bit_and second 0x80) 0) ≡ masked
      → bit_and second 0x7f ≡ short_len
      → check_mask role masked ≡ ok tt
      → payload_length short_len buf ≡ some (payload_len, len_bytes)
      → parse_flags buf max_payload role (first_byte o rsv1) second
        ≡ parse_rest buf max_payload true rsv1 o masked payload_len len_bytes
  unfolding parse_flags
  parse_flags_written em es ec el =
      let (f, r, z, b) = first_byte_flags o rsv1 in
      rw (f, r, z, em, es) (unfold parse_bits in rw (b, ec, el))

  -- The checks on the payload's length pass, and the mask is there.
  parse_rest_written :
      (mask : Option Key) (len : ℕ)
      → payload_len ≤ max_payload
      → (is_control o ≡ true → payload_len ≤ 125)
      → read_mask masked buf (2 + len_bytes) ≡ some (mask, len)
      → parse_rest buf max_payload true rsv1 o masked payload_len len_bytes
        ≡ ok (
            some (record {
              fin = true;
              rsv1 = rsv1;
              opcode = o;
              mask = mask;
              payload_len = payload_len;
              len = len;
            }))
  unfolding parse_rest check_length check_control
  parse_rest_written mask len h hc er = ground arith

  pub parse_written :
      (mask : Option Key) (len : ℕ)
      → not (eqb (bit_and second 0x80) 0) ≡ masked
      → bit_and second 0x7f ≡ short_len
      → check_mask role masked ≡ ok tt
      → payload_length short_len buf ≡ some (payload_len, len_bytes)
      → read_mask masked buf (2 + len_bytes) ≡ some (mask, len)
      → payload_len ≤ max_payload
      → (is_control o ≡ true → payload_len ≤ 125)
      → parse_flags buf max_payload role (first_byte o rsv1) second
        ≡ ok (
            some (record {
              fin = true;
              rsv1 = rsv1;
              opcode = o;
              mask = mask;
              payload_len = payload_len;
              len = len;
            }))
  parse_written mask len em es ec el er h hc =
      parse_flags_written em es ec el ∙ parse_rest_written mask len h hc er

-- ===== src/Ws/Build/RoundTrip.antt =====
-- What is written is read back.
use pahoa.Prelude.{
  ℕ, ◌+◌, ◌%◌, ◌^◌, ◌≤◌, ◌<◌, ◌≡◌, refl, sym, ◌∙◌, ap, Bool, true, false, Option, none, some, List,
  [], ◌++◌, length, length-append, take-append, drop-append, All, ltb, leb, arith, Bool-cases, inl,
  inr,
}
use mathlib.Core.List.{append_assoc}
use pahoa.Prelude.Bits.{bit_or_top}
use pahoa.Prelude.Result.{ok}
use pahoa.Ws.Bytes.{IsByte, to_be_bytes}
use pahoa.Ws.Mask.{Key, Endian, key_bytes, unmask}
use pahoa.Ws.Mask.Laws.{IsKey, unmask-unmask, length-unmask}
use pahoa.Ws.Frame.{
  OpCode, is_control, FrameHeader, Role, server, client, check_mask, key_of, read_mask, unmask_by,
  take_frame, parse_header, finish_decode, decode_as, decode,
}
use pahoa.Ws.Frame.Header.{
  second_byte_plain, second_byte_masked, parse_written, payload_length_short, payload_length_two,
  payload_length_eight,
}
use pahoa.Ws.Build.{put_header, build, masked_header, build_masked}

abbrev header_of : OpCode → Bool → Option Key → ℕ → ℕ → FrameHeader
header_of o rsv1 mask payload_len len = record {
  fin = true;
  rsv1 = rsv1;
  opcode = o;
  mask = mask;
  payload_len = payload_len;
  len = len;
}

take_frame_written :
    (ne : Endian) (hdr body rest : List ℕ) (o : OpCode) (rsv1 : Bool) (mask : Option Key)
    → take_frame ne
        (hdr ++ (body ++ rest))
        (some (header_of o rsv1 mask (length body) (length hdr)))
      ≡ (
        some (record { fin = true; rsv1 = rsv1; opcode = o; payload = unmask_by ne mask body }),
        rest,
      )
unfolding take_frame
take_frame_written ne hdr body rest o rsv1 mask =
    rw (drop-append hdr (body ++ rest), take-append body rest, drop-append body rest)
      (ground (arith, length-append hdr (body ++ rest), length-append body rest))

small : (n : ℕ) → ltb n 126 ≡ true → n % 256 ≡ n
small n e = ground arith

module _ (o : OpCode) (rsv1 : Bool) (key : Key) (n max : ℕ) (tail : List ℕ) where
  parse-masked_header :
      n ≤ max
      → n < 2 ^ 64
      → (is_control o ≡ true → n ≤ 125)
      → parse_header ((masked_header o rsv1 n ++ key_bytes key) ++ tail) max server
        ≡ ok (
            some (header_of o rsv1 (some key) n (length (masked_header o rsv1 n ++ key_bytes key))))
  unfolding parse_header masked_header check_mask read_mask key_of to_be_bytes
  parse-masked_header h hw hc = elim (Bool-cases (ltb n 126)) [
    | inl short ↦
        let (m, l) = second_byte_masked n (ground arith) in
        rw (short, bit_or_top (n % 256) (ground arith), small n short)
          (parse_written _ max server o rsv1 true (n + 128) n n 0 (some key) 6 m l refl
            (payload_length_short n _ (ground arith)) (ground arith) h hc)
    | inr long ↦ rw long (elim (Bool-cases (leb n 0xffff)) [
      | inl two ↦ rw two (
          parse_written _ max server o rsv1 true 254 126 n 2 (some key) 8 refl refl refl
            (payload_length_two _ _ n (key_bytes key ++ tail) (ground arith)) (ground arith) h hc)
      | inr eight ↦ rw eight (
          parse_written _ max server o rsv1 true 255 127 n 8 (some key) 14 refl refl refl
            (payload_length_eight _ _ n (key_bytes key ++ tail) hw) (ground arith) h hc)
    ])
  ]

module _ (o : OpCode) (rsv1 : Bool) (n max : ℕ) (tail : List ℕ) where
  parse-put_header :
      n ≤ max
      → n < 2 ^ 64
      → (is_control o ≡ true → n ≤ 125)
      → parse_header (put_header [] o rsv1 true n ++ tail) max client
        ≡ ok (some (header_of o rsv1 none n (length (put_header [] o rsv1 true n))))
  unfolding parse_header put_header check_mask read_mask to_be_bytes
  parse-put_header h hw hc = elim (Bool-cases (ltb n 126)) [
    | inl short ↦
        let (m, l) = second_byte_plain n (ground arith) in
        rw (short, small n short)
          (parse_written _ max client o rsv1 false n n n 0 none 2 m l refl
            (payload_length_short n _ (ground arith)) refl h hc)
    | inr long ↦ rw long (elim (Bool-cases (leb n 0xffff)) [
      | inl two ↦ rw two (
          parse_written _ max client o rsv1 false 126 126 n 2 none 4 refl refl refl
            (payload_length_two _ _ n tail (ground arith)) refl h hc)
      | inr eight ↦ rw eight (
          parse_written _ max client o rsv1 false 127 127 n 8 none 10 refl refl refl
            (payload_length_eight _ _ n tail hw) refl h hc)
    ])
  ]

decode_as_parsed :
    (ne : Endian) (hdr body rest : List ℕ) (max : ℕ) (role : Role) (o : OpCode) (rsv1 : Bool)
    (mask : Option Key)
    → parse_header (hdr ++ (body ++ rest)) max role
      ≡ ok (some (header_of o rsv1 mask (length body) (length hdr)))
    → decode_as ne (hdr ++ (body ++ rest)) max role ≡ (
      ok (some (record { fin = true; rsv1 = rsv1; opcode = o; payload = unmask_by ne mask body })),
      rest,
    )
unfolding decode_as finish_decode
decode_as_parsed ne hdr body rest max role o rsv1 mask e =
    rw (e, decode_as) (rw (take_frame_written ne hdr body rest o rsv1 mask))

regroup :
    (hdr body rest : List ℕ) (key : Key)
    → (hdr ++ (key_bytes key ++ body)) ++ rest ≡ (hdr ++ key_bytes key) ++ (body ++ rest)
regroup hdr body rest key =
    append_assoc hdr (key_bytes key ++ body) rest
    ∙ sym (append_assoc hdr (key_bytes key) (body ++ rest))

-- A client's masked frame, whatever bytes follow it in the buffer, is read back whole by the
-- server on a machine of any byte order, and exactly the frame's bytes are taken. The payload is
-- of bytes, within the reader's limit and a 64-bit length, and at most 125 bytes in a control frame.
pub decode-build_masked :
    (ne me : Endian) (o : OpCode) (rsv1 : Bool) (payload rest : List ℕ) (key : Key) (max : ℕ)
    → All IsByte payload
    → IsKey key
    → length payload ≤ max
    → length payload < 2 ^ 64
    → (is_control o ≡ true → length payload ≤ 125)
    → decode ne (build_masked me o rsv1 payload key ++ rest) max
      ≡ (ok (some (record { fin = true; rsv1 = rsv1; opcode = o; payload = payload })), rest)
unfolding decode build_masked unmask_by
decode-build_masked ne me o rsv1 payload rest key max hp hk hm hw hc =
    let n = length payload in
    let hdr = masked_header o rsv1 n ++ key_bytes key in
    let body = unmask me payload key in
    ap (λ buf. decode_as ne buf max server) (regroup (masked_header o rsv1 n) body rest key)
    ∙ decode_as_parsed ne hdr body rest max server o rsv1 (some key) (
        parse-masked_header o rsv1 key n max (body ++ rest) hm hw hc
        ∙ ap (λ k. ok (some (header_of o rsv1 (some key) k (length hdr))))
            (sym (length-unmask me payload key)))
    ∙ ap (λ p. (ok (some (record { fin = true; rsv1 = rsv1; opcode = o; payload = p })), rest))
        (unmask-unmask ne me payload key hp hk)

-- A server's frame, whatever bytes follow it, is read back whole by a client, and exactly the frame's
-- bytes are taken. The payload is within the reader's limit and a 64-bit length, and at most 125 bytes
-- in a control frame.
pub decode_as-build :
    (ne : Endian) (o : OpCode) (rsv1 : Bool) (payload rest : List ℕ) (max : ℕ)
    → length payload ≤ max
    → length payload < 2 ^ 64
    → (is_control o ≡ true → length payload ≤ 125)
    → decode_as ne (build o rsv1 payload ++ rest) max client
      ≡ (ok (some (record { fin = true; rsv1 = rsv1; opcode = o; payload = payload })), rest)
unfolding build
decode_as-build ne o rsv1 payload rest max hm hw hc = rw append_assoc (
    unfold unmask_by in
    decode_as_parsed ne (put_header [] o rsv1 true (length payload)) payload rest max client o rsv1
      none (parse-put_header o rsv1 (length payload) max (payload ++ rest) hm hw hc))

-- ===== src/Ws/Build.antt =====
-- crates/pahoa-net/src/ws/frame.rs, writing: the header of a frame before its payload.
pub mod RoundTrip
use Prim.Native.Nat.{bit_or}
use pahoa.Prelude.{ℕ, ◌%◌, Bool, true, List, [], ◌∷◌, ◌++◌, length, ltb, leb, if◌then◌else◌}
use pahoa.Ws.Bytes.{to_be_bytes}
use pahoa.Ws.Mask.{Key, Endian, key_bytes, unmask}
use pahoa.Ws.Frame.{OpCode, bits}

-- `put_header`: a server's frame has no mask bit.
unfoldable pub put_header : List ℕ → OpCode → Bool → Bool → ℕ → List ℕ
put_header out opcode rsv1 fin len =
    let with_fin = if fin then bit_or (bits opcode) 0x80 else bits opcode in
    let first = if rsv1 then bit_or with_fin 0x40 else with_fin in
    out
    ++ first
      ∷ (if ltb len 126
          then len % 256 ∷ []
          else if leb len 0xffff
          then 126 ∷ to_be_bytes 2 len
          else 127 ∷ to_be_bytes 8 len)

unfoldable pub build : OpCode → Bool → List ℕ → List ℕ
build opcode rsv1 payload = put_header [] opcode rsv1 true (length payload) ++ payload

unfoldable pub masked_header : OpCode → Bool → ℕ → List ℕ
masked_header opcode rsv1 len =
    let fin = bit_or (bits opcode) 0x80 in
    let first = if rsv1 then bit_or fin 0x40 else fin in
    first
    ∷ (if ltb len 126
        then bit_or 0x80 (len % 256) ∷ []
        else if leb len 0xffff
        then bit_or 0x80 126 ∷ to_be_bytes 2 len
        else bit_or 0x80 127 ∷ to_be_bytes 8 len)

unfoldable pub build_masked : Endian → OpCode → Bool → List ℕ → Key → List ℕ
build_masked ne opcode rsv1 payload key =
    masked_header opcode rsv1 (length payload) ++ (key_bytes key ++ unmask ne payload key)

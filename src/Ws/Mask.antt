-- ===== src/Ws/Mask.antt =====
-- crates/pahoa-net/src/ws/frame.rs, masking: a four-byte word at a time, in the target's byte order.
pub mod Laws
use Prim.Native.Nat.{bit_xor}
use pahoa.Prelude.{ℕ, ◌+◌, ◌*◌, ◌/◌, ◌%◌, List, [], ◌∷◌, ◌++◌}

-- `[u8; 4]`
pub record Key : Type 0 where
  pub k0 : ℕ
  pub k1 : ℕ
  pub k2 : ℕ
  pub k3 : ℕ

-- The target's byte order, which `from_ne_bytes` and `to_ne_bytes` follow.
pub data Endian : Type 0 where
  little big : Endian

unfoldable pub from_ne_bytes : Endian → ℕ → ℕ → ℕ → ℕ → ℕ
from_ne_bytes little a b c d = a + 256 * (b + 256 * (c + 256 * d))
from_ne_bytes big a b c d = d + 256 * (c + 256 * (b + 256 * a))

unfoldable pub to_ne_bytes : Endian → ℕ → List ℕ
to_ne_bytes little w = w % 256 ∷ w / 256 % 256 ∷ w / 65536 % 256 ∷ w / 16777216 % 256 ∷ []
to_ne_bytes big w = w / 16777216 % 256 ∷ w / 65536 % 256 ∷ w / 256 % 256 ∷ w % 256 ∷ []

-- `for (byte, k) in tail.iter_mut().zip(key)`
unfoldable pub xor_tail : List ℕ → List ℕ → List ℕ
xor_tail (b ∷ bs) (k ∷ ks) = bit_xor b k ∷ xor_tail bs ks
xor_tail bs _ = bs

abbrev pub key_bytes : Key → List ℕ
key_bytes key = key.k0 ∷ key.k1 ∷ key.k2 ∷ key.k3 ∷ []

-- Four bytes a round, and the rest byte by byte.
unfoldable pub unmask : Endian → List ℕ → Key → List ℕ
unmask ne (a ∷ b ∷ c ∷ d ∷ rest) key =
    let wide = from_ne_bytes ne key.k0 key.k1 key.k2 key.k3 in
    to_ne_bytes ne (bit_xor (from_ne_bytes ne a b c d) wide) ++ unmask ne rest key
unmask ne tail key = xor_tail tail (key_bytes key)

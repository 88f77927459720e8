-- ===== src/Ws/Mask/Laws.antt =====
-- The word-wise mask against RFC 6455's octet-wise one.
use Prim.Native.Nat.{bit_xor}
use pahoa.Prelude.{
  ℕ, zero, suc, ◌+◌, ◌*◌, ◌/◌, ◌%◌, ◌<◌, ◌≡◌, refl, sym, ◌∙◌, ap, List, [], ◌∷◌, length, All, arith,
}
use pahoa.Prelude.Bits.{bit_xor_cancel, bit_xor-lt, bit_xor_byte}
use pahoa.Ws.Bytes.{IsByte}
use pahoa.Ws.Mask.{Key, Endian, little, big, from_ne_bytes, to_ne_bytes, xor_tail, unmask}

pub record IsKey (key : Key) : Type 0 where
  pub byte0 : key.k0 < 256
  pub byte1 : key.k1 < 256
  pub byte2 : key.k2 < 256
  pub byte3 : key.k3 < 256

-- Octet i MOD 4 of the key.
unfoldable pub key_octet : Key → ℕ → ℕ
key_octet key zero = key.k0
key_octet key (suc zero) = key.k1
key_octet key (suc (suc zero)) = key.k2
key_octet key (suc (suc (suc zero))) = key.k3
key_octet key (suc (suc (suc (suc i)))) = key_octet key i

-- Transformed octet i is original octet i XOR key octet i MOD 4 (RFC 6455, section 5.3).
unfoldable pub mask_octets : Key → ℕ → List ℕ → List ℕ
mask_octets key i [] = []
mask_octets key i (b ∷ bs) = bit_xor b (key_octet key i) ∷ mask_octets key (suc i) bs

key_octet-IsByte : (key : Key) → IsKey key → (i : ℕ) → key_octet key i < 256
unfolding key_octet
key_octet-IsByte key h zero = h.byte0
key_octet-IsByte key h (suc zero) = h.byte1
key_octet-IsByte key h (suc (suc zero)) = h.byte2
key_octet-IsByte key h (suc (suc (suc zero))) = h.byte3
key_octet-IsByte key h (suc (suc (suc (suc i)))) = key_octet-IsByte key h i

mask_octets_period :
    (key : Key) (i : ℕ) (bs : List ℕ)
    → mask_octets key (suc (suc (suc (suc i)))) bs ≡ mask_octets key i bs
unfolding mask_octets key_octet
mask_octets_period key i [] = refl
mask_octets_period key i (b ∷ bs) =
    ap (λ l. bit_xor b (key_octet key i) ∷ l) (mask_octets_period key (suc i) bs)

-- The exclusive or of two words is that of their bytes.
bit_xor_word :
    (a b c d p q r s : ℕ)
    → a < 256
    → b < 256
    → c < 256
    → p < 256
    → q < 256
    → r < 256
    → bit_xor (a + 256 * (b + 256 * (c + 256 * d))) (p + 256 * (q + 256 * (r + 256 * s)))
      ≡ bit_xor a p + 256 * (bit_xor b q + 256 * (bit_xor c r + 256 * bit_xor d s))
bit_xor_word a b c d p q r s ha hb hc hp hq hr =
    bit_xor_byte a p _ _ ha hp
    ∙ ap (λ t. bit_xor a p + 256 * t)
        (bit_xor_byte b q _ _ hb hq ∙ ap (λ t. bit_xor b q + 256 * t) (bit_xor_byte c r d s hc hr))

word_digits :
    (w a b c d : ℕ)
    → w ≡ a + 256 * (b + 256 * (c + 256 * d))
    → a < 256
    → b < 256
    → c < 256
    → d < 256
    → (w % 256 ≡ a) × (w / 256 % 256 ≡ b) × (w / 65536 % 256 ≡ c) × (w / 16777216 % 256 ≡ d)
word_digits w a b c d e ha hb hc hd = (omega arith, omega arith, omega arith, omega arith)

word_bytes :
    (ne : Endian) (a b c d : ℕ) (key : Key)
    → IsKey key
    → a < 256
    → b < 256
    → c < 256
    → d < 256
    → to_ne_bytes ne
        (bit_xor (from_ne_bytes ne a b c d) (from_ne_bytes ne key.k0 key.k1 key.k2 key.k3))
      ≡ bit_xor a key.k0 ∷ bit_xor b key.k1 ∷ bit_xor c key.k2 ∷ bit_xor d key.k3 ∷ []
unfolding to_ne_bytes from_ne_bytes
word_bytes little a b c d key h ha hb hc hd = ground (
  arith,
  word_digits _ _ _ _ _
      (bit_xor_word a b c d key.k0 key.k1 key.k2 key.k3 ha hb hc h.byte0 h.byte1 h.byte2)
      (bit_xor-lt 8 a key.k0 ha h.byte0) (bit_xor-lt 8 b key.k1 hb h.byte1)
      (bit_xor-lt 8 c key.k2 hc h.byte2) (bit_xor-lt 8 d key.k3 hd h.byte3),
)
word_bytes big a b c d key h ha hb hc hd = ground (
  arith,
  word_digits _ _ _ _ _
      (bit_xor_word d c b a key.k3 key.k2 key.k1 key.k0 hd hc hb h.byte3 h.byte2 h.byte1)
      (bit_xor-lt 8 d key.k3 hd h.byte3) (bit_xor-lt 8 c key.k2 hc h.byte2)
      (bit_xor-lt 8 b key.k1 hb h.byte1) (bit_xor-lt 8 a key.k0 ha h.byte0),
)

-- In either byte order the word-wise mask of bytes with a key of bytes is RFC 6455's octet-wise one.
pub unmask-mask_octets :
    (ne : Endian) (payload : List ℕ) (key : Key)
    → All IsByte payload
    → IsKey key
    → unmask ne payload key ≡ mask_octets key 0 payload
unfolding unmask xor_tail mask_octets key_octet
unmask-mask_octets ne [] key hp hk = refl
unmask-mask_octets ne (a ∷ []) key hp hk = refl
unmask-mask_octets ne (a ∷ b ∷ []) key hp hk = refl
unmask-mask_octets ne (a ∷ b ∷ c ∷ []) key hp hk = refl
unmask-mask_octets ne (a ∷ b ∷ c ∷ d ∷ rest) key (ha, (hb, (hc, (hd, hr)))) hk =
    rw (word_bytes ne a b c d key hk ha hb hc hd) (
      ap (λ l. bit_xor a key.k0 ∷ bit_xor b key.k1 ∷ bit_xor c key.k2 ∷ bit_xor d key.k3 ∷ l)
        (unmask-mask_octets ne rest key hr hk ∙ sym (mask_octets_period key 0 rest)))

mask_octets-IsByte :
    (key : Key) (i : ℕ) (bs : List ℕ)
    → IsKey key
    → All IsByte bs
    → All IsByte (mask_octets key i bs)
unfolding mask_octets
mask_octets-IsByte key i [] hk h = tt
mask_octets-IsByte key i (b ∷ bs) hk (hb, hbs) = (
  bit_xor-lt 8 b (key_octet key i) hb (key_octet-IsByte key hk i),
  mask_octets-IsByte key (suc i) bs hk hbs,
)

mask_octets_twice :
    (key : Key) (i : ℕ) (bs : List ℕ) → mask_octets key i (mask_octets key i bs) ≡ bs
unfolding mask_octets
mask_octets_twice key i [] = refl
mask_octets_twice key i (b ∷ bs) = rw (bit_xor_cancel, mask_octets_twice key (suc i) bs)

pub unmask-IsByte :
    (ne : Endian) (payload : List ℕ) (key : Key)
    → All IsByte payload
    → IsKey key
    → All IsByte (unmask ne payload key)
unmask-IsByte ne payload key hp hk =
    rw (unmask-mask_octets ne payload key hp hk) (mask_octets-IsByte key 0 payload hk hp)

pub length-unmask :
    (ne : Endian) (payload : List ℕ) (key : Key) → length (unmask ne payload key) ≡ length payload
unfolding unmask xor_tail to_ne_bytes
length-unmask ne [] key = refl
length-unmask ne (a ∷ []) key = refl
length-unmask ne (a ∷ b ∷ []) key = refl
length-unmask ne (a ∷ b ∷ c ∷ []) key = refl
length-unmask little (a ∷ b ∷ c ∷ d ∷ rest) key = omega (arith, length-unmask little rest key)
length-unmask big (a ∷ b ∷ c ∷ d ∷ rest) key = omega (arith, length-unmask big rest key)

-- A payload of bytes that was masked on a machine of one byte order, with a key of bytes, is unmasked
-- on a machine of any.
pub unmask-unmask :
    (ne me : Endian) (payload : List ℕ) (key : Key)
    → All IsByte payload
    → IsKey key
    → unmask ne (unmask me payload key) key ≡ payload
unmask-unmask ne me payload key hp hk =
    unmask-mask_octets ne (unmask me payload key) key (unmask-IsByte me payload key hp hk) hk
    ∙ ap (mask_octets key 0) (unmask-mask_octets me payload key hp hk)
    ∙ mask_octets_twice key 0 payload

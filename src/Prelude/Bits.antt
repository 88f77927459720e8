-- ===== src/Prelude/Bits.antt =====
-- Masks and exclusive or, as arithmetic. A mask on a byte is a table, checked by evaluation.
use Prim.Native.Nat.{
  ℕ, zero, suc, ◌+◌, ◌*◌, ◌/◌, ◌%◌, ◌^◌, ◌≤◌, ◌<◌, bit_and, bit_or, bit_xor, digits, differ,
  bit_xor-bitwise, bit_or-bitwise, max,
}
use mathlib.Core.Path.{◌≡◌, refl, ap}
use mathlib.Core.Bool.{Bool, true, ◌&&◌}
use native.Mathlib.Nat.{pow-suc}
use native.Mathlib.Omega.{arith}
use pahoa.Prelude.Tests.{eqb}

module _ (f g : ℕ → ℕ) where
  agree_below : ℕ → Bool
  agree_below zero = true
  agree_below (suc n) = eqb (f n) (g n) && agree_below n

  agree_below→eq : (n : ℕ) → agree_below n ≡ true → (i : ℕ) → i < n → f i ≡ g i
  unfolding agree_below
  agree_below→eq zero e i h = absurd (omega arith)
  agree_below→eq (suc n) e i h = ground (arith, agree_below→eq n (ground arith) i)

-- The masks of a frame's first two bytes.
pub bit_and_fin : (b : ℕ) → b < 256 → bit_and b 0x80 ≡ b / 128 * 128
unfolding agree_below
bit_and_fin = agree_below→eq _ _ 256 refl

pub bit_and_rsv1 : (b : ℕ) → b < 256 → bit_and b 0x40 ≡ b / 64 % 2 * 64
unfolding agree_below
bit_and_rsv1 = agree_below→eq _ _ 256 refl

pub bit_and_reserved : (b : ℕ) → b < 256 → bit_and b 0x30 ≡ b / 16 % 4 * 16
unfolding agree_below
bit_and_reserved = agree_below→eq _ _ 256 refl

pub bit_and_low4 : (b : ℕ) → b < 256 → bit_and b 0x0f ≡ b % 16
unfolding agree_below
bit_and_low4 = agree_below→eq _ _ 256 refl

pub bit_and_low7 : (b : ℕ) → b < 256 → bit_and b 0x7f ≡ b % 128
unfolding agree_below
bit_and_low7 = agree_below→eq _ _ 256 refl

pub bit_or_top : (b : ℕ) → b < 128 → bit_or 0x80 b ≡ b + 128
unfolding agree_below
bit_or_top = agree_below→eq _ _ 128 refl

-- Exclusive or, from the recursion on binary digits that the native operation stands for.
module _ (z : ℕ → ℕ) (f : ℕ → ℕ → ℕ) where
  digits_enough : (n m a b : ℕ) → a ≤ n → a ≤ m → digits z f n a b ≡ digits z f m a b
  digits_enough zero zero a b p q = refl
  digits_enough zero (suc m) zero b p q = refl
  digits_enough zero (suc m) (suc a) b p q = absurd (omega arith)
  digits_enough (suc n) zero zero b p q = refl
  digits_enough (suc n) zero (suc a) b p q = absurd (omega arith)
  digits_enough (suc n) (suc m) zero b p q = refl
  digits_enough (suc n) (suc m) (suc a) b p q =
      rw (digits_enough n m (suc a / 2) (b / 2) (omega arith) (omega arith))

differ_bits : (a b : ℕ) → a < 2 → b < 2 → differ a b ≡ (a + b) % 2
differ_bits zero b ha hb = omega arith
differ_bits (suc zero) zero ha hb = refl
differ_bits (suc zero) (suc zero) ha hb = refl
differ_bits (suc zero) (suc (suc b)) ha hb = absurd (omega arith)
differ_bits (suc (suc a)) b ha hb = absurd (omega arith)

zero-bit_xor : (b : ℕ) → bit_xor 0 b ≡ b
zero-bit_xor b = bit_xor-bitwise 0 b

pub bit_xor_step : (a b : ℕ) → bit_xor a b ≡ bit_xor (a / 2) (b / 2) * 2 + (a + b) % 2
bit_xor_step zero b = omega (arith, zero-bit_xor b, zero-bit_xor (b / 2))
bit_xor_step (suc a) b = omega (
  arith,
  bit_xor-bitwise (suc a) b,
  bit_xor-bitwise (suc a / 2) (b / 2),
  digits_enough (λ y. y) differ a (suc a / 2) (suc a / 2) (b / 2) (omega arith) (omega arith),
  differ_bits (suc a % 2) (b % 2),
)

-- Applying a mask twice gives the number back.
cancel_below : (n a k : ℕ) → a + k < n → bit_xor (bit_xor a k) k ≡ a
cancel_below zero a k h = absurd (omega arith)
cancel_below (suc n) zero zero h = refl
cancel_below (suc n) a k h = omega (
  arith,
  bit_xor_step a k,
  bit_xor_step (bit_xor a k) k,
  ap (λ (t : ℕ). bit_xor t (k / 2)) (half-bit_xor a k),
  cancel_below n (a / 2) (k / 2),
)
  where
    half-bit_xor : (a k : ℕ) → bit_xor a k / 2 ≡ bit_xor (a / 2) (k / 2)
    half-bit_xor a k = omega (arith, bit_xor_step a k)

pub bit_xor_cancel : (a k : ℕ) → bit_xor (bit_xor a k) k ≡ a
bit_xor_cancel a k = cancel_below (suc (a + k)) a k (omega arith)

pub bit_xor-lt : (n a b : ℕ) → a < 2 ^ n → b < 2 ^ n → bit_xor a b < 2 ^ n
bit_xor-lt zero zero zero ha hb = omega (arith, zero-bit_xor 0)
bit_xor-lt zero zero (suc b) ha hb = absurd (omega arith)
bit_xor-lt zero (suc a) b ha hb = absurd (omega arith)
bit_xor-lt (suc n) a b ha hb =
    omega (arith, pow-suc 2 n, bit_xor_step a b, bit_xor-lt n (a / 2) (b / 2))

-- The low digits and the rest do not meet.
xor_fields :
    (n a b x y : ℕ)
    → a < 2 ^ n
    → b < 2 ^ n
    → bit_xor (a + 2 ^ n * x) (b + 2 ^ n * y) ≡ bit_xor a b + 2 ^ n * bit_xor x y
xor_fields zero zero zero x y ha hb = ground (arith, zero-bit_xor 0)
xor_fields zero zero (suc b) x y ha hb = absurd (omega arith)
xor_fields zero (suc a) b x y ha hb = absurd (omega arith)
xor_fields (suc n) a b x y ha hb = ground (
  arith,
  bit_xor_step (a + 2 ^ suc n * x) (b + 2 ^ suc n * y),
  bit_xor_step a b,
  upper n a x,
  upper n b y,
  double n (bit_xor x y),
  double n x,
  double n y,
  xor_fields n (a / 2) (b / 2) x y (halve a ha) (halve b hb),
)
  where
    double : (n x : ℕ) → 2 ^ suc n * x ≡ 2 * (2 ^ n * x)
    double n x = omega (arith, ap (λ (t : ℕ). t * x) (pow-suc 2 n))

    upper : (n a x : ℕ) → (a + 2 ^ suc n * x) / 2 ≡ a / 2 + 2 ^ n * x
    upper n a x = omega (arith, double n x)

    halve : (a : ℕ) → a < 2 ^ suc n → a / 2 < 2 ^ n
    halve a h = omega (arith, pow-suc 2 n)

pub bit_xor_byte :
    (a b x y : ℕ)
    → a < 256
    → b < 256
    → bit_xor (a + 256 * x) (b + 256 * y) ≡ bit_xor a b + 256 * bit_xor x y
bit_xor_byte = xor_fields 8

pub eq-bit_xor : (x y : ℕ) → bit_xor x y ≡ 0 → x ≡ y
eq-bit_xor x y h = omega (arith, bit_xor_cancel x y, ap (λ (t : ℕ). bit_xor t y) h, zero-bit_xor y)

pub bit_xor_self : (x : ℕ) → bit_xor x x ≡ 0
bit_xor_self x = omega (arith, bit_xor_cancel 0 x, ap (λ (t : ℕ). bit_xor t x) (zero-bit_xor x))

zero-bit_or : (b : ℕ) → bit_or 0 b ≡ b
zero-bit_or b = bit_or-bitwise 0 b

bit_or_step : (a b : ℕ) → bit_or a b ≡ bit_or (a / 2) (b / 2) * 2 + max (a % 2) (b % 2)
bit_or_step zero b = omega (arith, zero-bit_or b, zero-bit_or (b / 2))
bit_or_step (suc a) b = omega (
  arith,
  bit_or-bitwise (suc a) b,
  bit_or-bitwise (suc a / 2) (b / 2),
  digits_enough (λ y. y) max a (suc a / 2) (suc a / 2) (b / 2) (omega arith) (omega arith),
)

le_below : (n a b : ℕ) → a + b < n → (a ≤ bit_or a b) × (b ≤ bit_or a b)
le_below zero a b h = absurd (omega arith)
le_below (suc n) zero b h = (omega arith, omega (arith, zero-bit_or b))
le_below (suc n) (suc a) b h =
    let half = le_below n (suc a / 2) (b / 2) (omega arith) in
    (
      omega (arith, bit_or_step (suc a) b, half.0, half.1),
      omega (arith, bit_or_step (suc a) b, half.0, half.1),
    )

pub bit_or-lt : (n a b : ℕ) → a < 2 ^ n → b < 2 ^ n → bit_or a b < 2 ^ n
bit_or-lt zero zero zero ha hb = omega (arith, zero-bit_or 0)
bit_or-lt zero zero (suc b) ha hb = absurd (omega arith)
bit_or-lt zero (suc a) b ha hb = absurd (omega arith)
bit_or-lt (suc n) a b ha hb = omega (
  arith,
  pow-suc 2 n,
  bit_or_step a b,
  bit_or-lt n (a / 2) (b / 2) (omega (arith, pow-suc 2 n)) (omega (arith, pow-suc 2 n)),
)

-- An or is zero for zeros only.
pub zeros-bit_or : (a b : ℕ) → bit_or a b ≡ 0 → (a ≡ 0) × (b ≡ 0)
zeros-bit_or a b h =
    let le = le_below (suc (a + b)) a b (omega arith) in
    (omega (arith, le.0, h), omega (arith, le.1, h))

pub bit_or_zeros : (b : ℕ) → bit_or 0 b ≡ b
bit_or_zeros = zero-bit_or

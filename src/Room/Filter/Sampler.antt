-- ===== src/Room/Filter/Sampler.antt =====
-- crates/pahoa-room/src/filter.rs: the sampler.
use Prim.Native.Nat.{bit_or, bit_xor}
use pahoa.Prelude.{ℕ, zero, suc, ◌*◌, ◌/◌, ◌%◌, ◌^◌, ◌<◌, ◌≢◌, ◌≡◌, arith}
use pahoa.Prelude.Bits.{bit_xor-lt, eq-bit_xor, zeros-bit_or, bit_or-lt}

-- The state of the sampler is a `u64`.
pub record Sampler : Type 0 where
  pub state : ℕ

unfoldable pub new_sampler : ℕ → Sampler
new_sampler seed = record { state = bit_or seed 1 }

abbrev pub shift_right : ℕ → ℕ → ℕ
shift_right n x = bit_xor x (x / 2 ^ n)

abbrev pub shift_left : ℕ → ℕ → ℕ
shift_left n x = bit_xor x (x * 2 ^ n % 2 ^ 64)

abbrev pub next_state : ℕ → ℕ
next_state x = shift_right 27 (shift_left 25 (shift_right 12 x))

-- The number drawn is the top 53 bits as a share of 2⁵³, which `fraction` is.
unfoldable pub sample : {F : Type 0} → (ℕ → F) → Sampler → F × Sampler
sample fraction sampler =
    let x = next_state sampler.state in
    (fraction (x * 0x2545F4914F6CDD1D % 2 ^ 64 / 2 ^ 11), record { state = x })

-- The state is not 0, at which it would stay.
abbrev pub IsLive : Sampler → Type 0
IsLive sampler = (sampler.state ≢ 0) × (sampler.state < 2 ^ 64)

next_state-IsLive : (x : ℕ) → x ≢ 0 → x < 2 ^ 64 → (next_state x ≢ 0) × (next_state x < 2 ^ 64)
next_state-IsLive x live small =
    let a = shift_right 12 x in
    let b = shift_left 25 a in
    let a-lt = bit_xor-lt 64 x (x / 2 ^ 12) small (omega arith) in
    let b-lt = bit_xor-lt 64 a (a * 2 ^ 25 % 2 ^ 64) a-lt (omega arith) in
    let c-lt = bit_xor-lt 64 b (b / 2 ^ 27) b-lt (omega arith) in
    (
      (λ h.
          let b-zero : b ≡ 0 = omega (arith, eq-bit_xor b (b / 2 ^ 27) h) in
          let a-zero : a ≡ 0 = omega (arith, eq-bit_xor a (a * 2 ^ 25 % 2 ^ 64) b-zero, a-lt) in
          live (omega (arith, eq-bit_xor x (x / 2 ^ 12) a-zero))),
      c-lt,
    )

new_sampler-IsLive : (seed : ℕ) → seed < 2 ^ 64 → IsLive (new_sampler seed)
unfolding new_sampler
new_sampler-IsLive seed small = (
  (λ h. absurd (omega (arith, (zeros-bit_or seed 1 h).1))),
  bit_or-lt 64 seed 1 small (omega arith),
)

sample-IsLive :
    {F : Type 0}
    → (fraction : ℕ → F) (sampler : Sampler) → IsLive sampler
    → IsLive (sample fraction sampler).1
unfolding sample
sample-IsLive fraction sampler (live, small) = next_state-IsLive sampler.state live small

-- The sampler after some draws.
unfoldable pub after_draws : {F : Type 0} → (ℕ → F) → ℕ → Sampler → Sampler
unfolding sample
after_draws fraction zero sampler = sampler
after_draws fraction (suc n) sampler = (sample fraction (after_draws fraction n sampler)).1

-- A sampler made from a seed of 64 bits does not reach the state 0, in which it would stay, by any
-- number of draws, and its state stays one of 64 bits.
pub after_draws-IsLive :
    {F : Type 0}
    → (fraction : ℕ → F) (n seed : ℕ) → seed < 2 ^ 64
    → IsLive (after_draws fraction n (new_sampler seed))
unfolding after_draws
after_draws-IsLive fraction zero seed small = new_sampler-IsLive seed small
after_draws-IsLive fraction (suc n) seed small =
    sample-IsLive fraction (after_draws fraction n (new_sampler seed))
      (after_draws-IsLive fraction n seed small)

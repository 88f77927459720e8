-- ===== src/Room/Secret.antt =====
-- crates/pahoa-room/src/secret.rs: comparing secrets.
use Prim.Native.Nat.{bit_or, bit_xor}
use pahoa.Prelude.{
  ℕ, Bool, true, false, Option, none, some, List, [], ◌∷◌, length, ◌≡◌, ◌↔◌, refl, ap, ◌∙◌, arith,
  eqb, String, if◌then◌else◌, subst,
}
use pahoa.Prelude.Bits.{eq-bit_xor, bit_xor_self, zeros-bit_or, bit_or_zeros}

-- The loop: every difference is gathered.
unfoldable pub gather : ℕ → List ℕ → List ℕ → ℕ
gather diff (x ∷ xs) (y ∷ ys) = gather (bit_or diff (bit_xor x y)) xs ys
gather diff [] ys = diff
gather diff (x ∷ xs) [] = diff

unfoldable pub ct_eq : List ℕ → List ℕ → Bool
unfolding gather
ct_eq a b = if eqb (length a) (length b) then eqb (gather 0 a b) 0 else false

-- `as_bytes` is that of the standard library.
module _ (as_bytes : String → List ℕ) where
  unfoldable pub ct_eq_opt : Option String → Option String → Bool
  unfolding ct_eq
  ct_eq_opt none supplied = true
  ct_eq_opt (some expected) none = false
  ct_eq_opt (some expected) (some supplied) = ct_eq (as_bytes expected) (as_bytes supplied)

gather_same : (a : List ℕ) → gather 0 a a ≡ 0
unfolding gather
gather_same [] = refl
gather_same (x ∷ xs) =
    ap (λ d. gather d xs xs) (bit_or_zeros (bit_xor x x) ∙ bit_xor_self x) ∙ gather_same xs

gather-zero : (d : ℕ) (a b : List ℕ) → length a ≡ length b → gather d a b ≡ 0 → (d ≡ 0) × (a ≡ b)
unfolding gather
gather-zero d [] [] n h = (h, refl)
gather-zero d [] (y ∷ ys) n h = absurd (omega (arith, n))
gather-zero d (x ∷ xs) [] n h = absurd (omega (arith, n))
gather-zero d (x ∷ xs) (y ∷ ys) n h =
    let rest = gather-zero (bit_or d (bit_xor x y)) xs ys (omega (arith, n)) h in
    let both = zeros-bit_or d (bit_xor x y) rest.0 in
    (both.0, ap (λ k. k ∷ xs) (eq-bit_xor x y both.1) ∙ ap (λ l. y ∷ l) rest.1)

-- The comparison that takes the same time wherever two secrets differ is equality.
pub ct_eq_iff : (a b : List ℕ) → (ct_eq a b ≡ true) ↔ (a ≡ b)
unfolding ct_eq
ct_eq_iff a b = (
  λ h. (gather-zero 0 a b (ground (arith, h)) (ground (arith, h))).1,
  λ e.
      subst (λ c. (if eqb (length a) (length c) then eqb (gather 0 a c) 0 else false) ≡ true) e
        (ground (arith, gather_same a)),
)

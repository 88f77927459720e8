-- ===== src/Ws/Close.antt =====
-- crates/pahoa-net/src/ws/frame.rs: a close frame with a code and a reason that is cut to fit.
use Prim.Native.Nat.{min}
use pahoa.Prelude.{
  ℕ, zero, suc, ◌≤◌, Bool, true, false, not, ◌||◌, Option, none, some, List, ◌++◌, length, take,
  get_elem?, ltb, leb, eqb, ◌≡◌, refl, ap, arith, inl, inr, Bool-cases, eqb_iff, if_both,
  length-append, length-take, if◌then◌else◌,
}
use pahoa.Prelude.Result.{ok}
use pahoa.Ws.Bytes.{to_be_bytes, length-to_be_bytes}
use pahoa.Ws.Mask.{Endian}
use pahoa.Ws.Frame.{close, client, decode_as}
use pahoa.Ws.Build.{build}
use pahoa.Ws.Build.RoundTrip.{decode_as-build}

-- `b as i8 >= -0x40`, for the byte at an index within the text: it does not continue a character.
abbrev pub starts_char : Option ℕ → Bool
starts_char none = false
starts_char (some b) = ltb b 0x80 || leb 0xC0 b

-- `str::is_char_boundary`
unfoldable pub is_char_boundary : List ℕ → ℕ → Bool
is_char_boundary reason index =
    eqb index 0 || eqb index (length reason) || starts_char (get_elem? reason index)

-- The loop that goes back to a boundary.
unfoldable pub cut_back : List ℕ → ℕ → ℕ
cut_back reason zero = zero
cut_back reason (suc cut) =
    let back = cut_back reason cut in
    if not (is_char_boundary reason (suc cut)) then back else suc cut

unfoldable pub cut_reason : List ℕ → List ℕ
unfolding cut_back
cut_reason reason = take (cut_back reason (min (length reason) 123)) reason

unfoldable pub close_frame : ℕ → List ℕ → List ℕ
unfolding cut_reason
close_frame code reason = build close false (to_be_bytes 2 code ++ cut_reason reason)

-- The longest cut, up to a bound, that splits no character of the reason.
abbrev pub IsLongestCut : List ℕ → ℕ → ℕ → Type 0
IsLongestCut reason bound cut =
    (cut ≤ bound)
    × (is_char_boundary reason cut ≡ true)
    × ((c : ℕ) → c ≤ bound → is_char_boundary reason c ≡ true → c ≤ cut)

boundary_zero : (reason : List ℕ) → is_char_boundary reason 0 ≡ true
unfolding is_char_boundary
boundary_zero reason = refl

longer :
    (reason : List ℕ) (n back : ℕ)
    → not (is_char_boundary reason (suc n)) ≡ true
    → ((c : ℕ) → c ≤ n → is_char_boundary reason c ≡ true → c ≤ back)
    → (c : ℕ) → c ≤ suc n
    → is_char_boundary reason c ≡ true
    → c ≤ back
longer reason n back e all c h b = elim (Bool-cases (eqb c (suc n))) [
  | inl same ↦
      absurd (let at = ap (is_char_boundary reason) ((eqb_iff c (suc n)).0 same) in ground arith)
  | inr other ↦ all c (ground arith) b
]

-- The loop ends at the longest cut within its start.
pub cut_back-IsLongestCut :
    (reason : List ℕ) (bound : ℕ) → IsLongestCut reason bound (cut_back reason bound)
unfolding cut_back
cut_back-IsLongestCut reason zero = (omega arith, boundary_zero reason, (λ c h b. h))
cut_back-IsLongestCut reason (suc n) =
    let (fits, boundary, all) = cut_back-IsLongestCut reason n in
    if_both (IsLongestCut reason (suc n)) (not (is_char_boundary reason (suc n)))
      (λ e. (omega arith, boundary, longer reason n (cut_back reason n) e all))
      (λ e. (omega arith, ground arith, (λ c h b. h)))

cut_reason-length : (reason : List ℕ) → length (cut_reason reason) ≤ 123
unfolding cut_reason
cut_reason-length reason =
    let (fits, boundary, all) = cut_back-IsLongestCut reason (min (length reason) 123) in
    omega (arith, length-take (cut_back reason (min (length reason) 123)) reason)

close_payload-length :
    (code : ℕ) (reason : List ℕ) → length (to_be_bytes 2 code ++ cut_reason reason) ≤ 125
close_payload-length code reason = omega (
  arith,
  length-append (to_be_bytes 2 code) (cut_reason reason),
  length-to_be_bytes 2 code,
  cut_reason-length reason,
)

-- A client reads a close frame as one whole frame with the code and the cut reason, and leaves the bytes
-- behind it.
pub decode_as-close_frame :
    (ne : Endian) (code : ℕ) (reason rest : List ℕ)
    → decode_as ne (close_frame code reason ++ rest) 125 client ≡ (
      ok (
          some (record {
            fin = true;
            rsv1 = false;
            opcode = close;
            payload = to_be_bytes 2 code ++ cut_reason reason;
          })),
      rest,
    )
unfolding close_frame
decode_as-close_frame ne code reason rest =
    decode_as-build ne close false (to_be_bytes 2 code ++ cut_reason reason) rest 125
      (close_payload-length code reason) (omega (arith, close_payload-length code reason))
      (λ c. close_payload-length code reason)

-- ===== src/Proto/Depth/Balance.antt =====
-- crates/pahoa-proto/src/depth.rs: the scan against the brackets that stand outside of strings.
use pahoa.Prelude.{
  ℕ, zero, suc, ◌≤◌, ◌<◌, ◌^◌, Bool, true, false, not, ◌&&◌, List, [], ◌∷◌, take, eqb, ◌≡◌, ◌↔◌,
  refl, ap, ◌∙◌, arith, Bool-cases, inl, inr, if◌then◌else◌,
}
use pahoa.Prelude.Result.{Result, ok, err}
use pahoa.Prelude.Int.{ℤ, pos, ◌+ℤ◌, ◌-ℤ◌, ◌≤ℤ◌, ltb_ℤ, eqb_ℤ_iff, int_laws, wrap_i64-fits}
use pahoa.Proto.Depth.{
  DepthError, too_deep, Scan, opens, closes, bracket, step, scan, start, balanced, check_depth,
}

-- What a byte is, by whether it stands in a string and behind a backslash: a bracket, or a byte that
-- leaves these two as given.
pub data Token : Type 0 where
  opening closing : Token
  silent : Bool → Bool → Token

unfoldable pub lex : Bool → Bool → ℕ → Token
lex q e c =
    if eqb c 92 && not e
    then silent q true
    else if eqb c 34 && not e
    then silent (not q) e
    else if q
    then silent q false
    else if opens c
    then opening
    else if closes c
    then closing
    else silent q false

-- The brackets outside of strings, `true` for one that opens.
unfoldable pub brackets : Bool → Bool → List ℕ → List Bool
unfolding lex
brackets q e [] = []
brackets q e (c ∷ cs) = elim (lex q e c) [
  | opening ↦ true ∷ brackets q false cs
  | closing ↦ false ∷ brackets q false cs
  | silent q' e' ↦ brackets q' e' cs
]

-- The depth behind brackets, from a depth on.
unfoldable pub depth_of : ℤ → List Bool → ℤ
depth_of d [] = d
depth_of d (true ∷ bs) = depth_of (d +ℤ pos 1) bs
depth_of d (false ∷ bs) = depth_of (d -ℤ pos 1) bs

-- From a depth on, brackets never go deeper than the limit and end at depth one.
unfoldable pub IsBalanced : ℕ → ℤ → List Bool → Type 0
unfolding depth_of
IsBalanced limit d bs = ((n : ℕ) → depth_of d (take n bs) ≤ℤ pos limit) × (depth_of d bs ≡ pos 1)

abbrev advance : ℕ → Scan → Token → Result DepthError Scan
advance limit s opening =
    if ltb_ℤ (pos limit) (s.depth +ℤ pos 1)
    then err (too_deep limit)
    else ok (record { depth = s.depth +ℤ pos 1; in_quotes = s.in_quotes; escape = false })
advance limit s closing =
    ok (record { depth = s.depth -ℤ pos 1; in_quotes = s.in_quotes; escape = false })
advance limit s (silent q e) = ok (record { depth = s.depth; in_quotes = q; escape = e })

step-lex :
    (limit : ℕ) (s : Scan) (c : ℕ)
    → limit < 2 ^ 63
    → step limit s c ≡ advance limit s (lex s.in_quotes s.escape c)
unfolding step bracket lex
step-lex limit s c small = ground (arith, wrap_i64-fits (pos limit) small (omega arith))

prefix-cons :
    (limit : ℕ) (d : ℤ) (b : Bool) (bs : List Bool)
    → d ≤ℤ pos limit
    → ((n : ℕ) → depth_of (depth_of d (b ∷ [])) (take n bs) ≤ℤ pos limit)
    → (n : ℕ) → depth_of d (take n (b ∷ bs)) ≤ℤ pos limit
unfolding depth_of
prefix-cons limit d b bs h p zero = h
prefix-cons limit d true bs h p (suc n) = p n
prefix-cons limit d false bs h p (suc n) = p n

IsBalanced-cons :
    (limit : ℕ) (d : ℤ) (b : Bool) (bs : List Bool)
    → d ≤ℤ pos limit
    → IsBalanced limit d (b ∷ bs) ↔ IsBalanced limit (depth_of d (b ∷ [])) bs
unfolding IsBalanced depth_of
IsBalanced-cons limit d true bs h =
    ((λ p. ((λ n. p.0 (suc n)), p.1)), (λ p. (prefix-cons limit d true bs h p.0, p.1)))
IsBalanced-cons limit d false bs h =
    ((λ p. ((λ n. p.0 (suc n)), p.1)), (λ p. (prefix-cons limit d false bs h p.0, p.1)))

too_deep-unbalanced :
    (limit : ℕ) (d : ℤ) (bs : List Bool)
    → ltb_ℤ (pos limit) (d +ℤ pos 1) ≡ true
    → ¬ IsBalanced limit d (true ∷ bs)
unfolding IsBalanced depth_of
too_deep-unbalanced limit d bs e p = let q = p.0 1 in ground arith

take-nil : (n : ℕ) → take {A = Bool} n [] ≡ []
take-nil zero = refl
take-nil (suc n) = refl

balanced-end :
    (limit : ℕ) (s : Scan)
    → s.depth ≤ℤ pos limit
    → (balanced (ok s) ≡ ok tt) ↔ IsBalanced limit s.depth []
unfolding IsBalanced depth_of
balanced-end limit s h = (
  λ e. ((λ n. rw (take-nil n) h), ground (arith, eqb_ℤ_iff s.depth (pos 1))),
  λ p. let q = p.1 in rw ((eqb_ℤ_iff s.depth (pos 1)).1 q),
)

-- What a scan and the list of brackets make of the bytes behind one.
abbrev resume : ℕ → Result DepthError Scan → List ℕ → Result DepthError Scan
resume limit (err e) cs = err e
resume limit (ok s) cs = scan limit s cs

abbrev emit : Bool → Token → List ℕ → List Bool
emit q opening cs = true ∷ brackets q false cs
emit q closing cs = false ∷ brackets q false cs
emit q (silent q' e') cs = brackets q' e' cs

scan-resume :
    (limit : ℕ) (s : Scan) (c : ℕ) (cs : List ℕ)
    → limit < 2 ^ 63
    → scan limit s (c ∷ cs) ≡ resume limit (advance limit s (lex s.in_quotes s.escape c)) cs
unfolding scan
scan-resume limit s c cs small =
    go (step limit s c) ∙ ap (λ r. resume limit r cs) (step-lex limit s c small)
  where
    go :
        (r : Result DepthError Scan)
        → (elim r [ err e ↦ err e | ok s' ↦ scan limit s' cs ]) ≡ resume limit r cs
    go (err e) = refl
    go (ok s') = refl

brackets-emit : (q e : Bool) (c : ℕ) (cs : List ℕ) → brackets q e (c ∷ cs) ≡ emit q (lex q e c) cs
unfolding brackets
brackets-emit q e c cs = go (lex q e c)
  where
    go :
        (t : Token)
        → (elim t [
          | opening ↦ true ∷ brackets q false cs
          | closing ↦ false ∷ brackets q false cs
          | silent q' e' ↦ brackets q' e' cs
        ])
          ≡ emit q t cs
    go opening = refl
    go closing = refl
    go (silent q' e') = refl

-- Whether the scan of bytes from a state on is accepted as the brackets say.
abbrev Agrees : ℕ → Scan → List ℕ → Type 0
Agrees limit s cs =
    (balanced (scan limit s cs) ≡ ok tt)
    ↔ IsBalanced limit s.depth (brackets s.in_quotes s.escape cs)

via : {A B C : Type 0} → A ↔ B → C ↔ B → A ↔ C
via p q = ((λ a. q.1 (p.0 a)), (λ c. p.1 (q.0 c)))

Agrees-token :
    (limit : ℕ) (s : Scan) (t : Token) (cs : List ℕ)
    → ((s' : Scan) → s'.depth ≤ℤ pos limit → Agrees limit s' cs)
    → s.depth ≤ℤ pos limit
    → (balanced (resume limit (advance limit s t) cs) ≡ ok tt)
      ↔ IsBalanced limit s.depth (emit s.in_quotes t cs)
unfolding depth_of
Agrees-token limit s (silent q e) cs ih h =
    ih (record { depth = s.depth; in_quotes = q; escape = e }) h
Agrees-token limit s closing cs ih h =
    via
      (ih (record { depth = s.depth -ℤ pos 1; in_quotes = s.in_quotes; escape = false })
        (grind int_laws))
      (IsBalanced-cons limit s.depth false (brackets s.in_quotes false cs) h)
Agrees-token limit s opening cs ih h = elim (Bool-cases (ltb_ℤ (pos limit) (s.depth +ℤ pos 1))) [
  | inl e ↦ rw (e) (
    (λ r. ground arith),
    (λ p. absurd (too_deep-unbalanced limit s.depth (brackets s.in_quotes false cs) e p)),
  )
  | inr e ↦ rw (e) (
      via
        (ih (record { depth = s.depth +ℤ pos 1; in_quotes = s.in_quotes; escape = false })
          (ground arith))
        (IsBalanced-cons limit s.depth true (brackets s.in_quotes false cs) h))
]

agrees :
    (limit : ℕ) (s : Scan) (cs : List ℕ) → limit < 2 ^ 63 → s.depth ≤ℤ pos limit → Agrees limit s cs
unfolding scan brackets
agrees limit s [] small h = balanced-end limit s h
agrees limit s (c ∷ cs) small h =
    rw (scan-resume limit s c cs small, brackets-emit s.in_quotes s.escape c cs)
      (Agrees-token limit s (lex s.in_quotes s.escape c) cs (λ s' h'. agrees limit s' cs small h')
        h)

-- With a limit of one or more, below 2^63, the check accepts exactly the documents whose brackets outside of strings
-- never reach a depth above the limit, counted from one, and end at depth one.
pub check_depth-IsBalanced :
    (cs : List ℕ) (limit : ℕ)
    → 1 ≤ limit
    → limit < 2 ^ 63
    → (check_depth cs limit ≡ ok tt) ↔ IsBalanced limit (pos 1) (brackets false false cs)
unfolding check_depth
check_depth-IsBalanced cs limit h small = agrees limit start cs small (omega arith)

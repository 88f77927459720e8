-- ===== src/Room/Hints/Choose/Earliest.antt =====
-- crates/pahoa-room/src/hints.rs: the hints that are granted come before those that remain.
use pahoa.Prelude.{
  ℕ, zero, suc, ◌≤◌, true, false, Option, none, some, List, [], ◌∷◌, leb, ◌≡◌, All, arith, leb→le,
}
use pahoa.Prelude.Int.{ℤ}
use pahoa.Prelude.Ordered.{IsOrdered, IsOrdered-map, IsOrdered-of, Decides, sort_by-IsOrdered}
use pahoa.Prelude.Sorting.{sort_by}
use pahoa.Multidata.Types.{Hint}
use pahoa.Room.Hints.Choose.{
  pop, pop_behind, take_popped, take_last, remote, local_leb, sphere_at, later_leb, grant,
}

leb_false→ge : (a b : ℕ) → leb a b ≡ false → b ≤ a
leb_false→ge a b h = ground arith

lex_trans :
    (s t u a b c : ℕ)
    → (t ≤ s × (s ≤ t → a ≤ b))
    → (u ≤ t × (t ≤ u → b ≤ c))
    → u ≤ s × (s ≤ u → a ≤ c)
lex_trans s t u a b c h k = grind arith

lex_decides :
    (s t a b : ℕ)
    → a ≤ b
    → (leb t s ≡ true → t ≤ s × (s ≤ t → a ≤ b)) × (leb t s ≡ false → s ≤ t × (t ≤ s → b ≤ a))
lex_decides s t a b h = ground arith

module _ {ℓ} {A : Type ℓ} where
  abbrev AllPopped : (A → Type 0) → Option (A × List A) → Type 0
  AllPopped P none = Unit
  AllPopped P (some (last, rest)) = P last × All P rest

  pop-AllPopped : (P : A → Type 0) (xs : List A) → All P xs → AllPopped P (pop xs)
  unfolding pop
  pop-AllPopped P [] h = tt
  pop-AllPopped P (x ∷ xs) h = behind (pop xs) (pop-AllPopped P xs h.1)
    where
      behind : (o : Option (A × List A)) → AllPopped P o → AllPopped P (pop_behind x o)
      behind none k = (h.0, tt)
      behind (some (last, rest)) k = (k.0, (h.0, k.1))

  abbrev IsPopped : (A → A → Type 0) → Option (A × List A) → Type 0
  IsPopped R none = Unit
  IsPopped R (some (last, rest)) = All (λ a. R a last) rest × IsOrdered R rest

  pop-IsPopped : (R : A → A → Type 0) (xs : List A) → IsOrdered R xs → IsPopped R (pop xs)
  unfolding pop
  pop-IsPopped R [] h = tt
  pop-IsPopped R (x ∷ xs) h = behind (pop xs) (pop-AllPopped (R x) xs h.0) (pop-IsPopped R xs h.1)
    where
      behind :
          (o : Option (A × List A)) → AllPopped (R x) o → IsPopped R o → IsPopped R (pop_behind x o)
      behind none k l = (tt, tt)
      behind (some (last, rest)) k l = ((k.0, l.0), (k.1, l.1))

  take_popped-remaining :
      (P : A → Type 0) (xs : List A) (f : List A → List A × List A) (o : Option (A × List A))
      → All P xs
      → ((ys : List A) → All P ys → All P (f ys).1)
      → AllPopped P o
      → All P (take_popped xs f o).1
  take_popped-remaining P xs f none h k l = h
  take_popped-remaining P xs f (some (last, rest)) h k l = k rest l.1

  take_last-remaining :
      (P : A → Type 0) (budget : ℕ) (xs : List A) → All P xs → All P (take_last budget xs).1
  unfolding take_last
  take_last-remaining P zero xs h = h
  take_last-remaining P (suc budget) xs h =
      take_popped-remaining P xs (take_last budget) (pop xs) h (take_last-remaining P budget)
        (pop-AllPopped P xs h)

  -- Each granted element stands so to each that remains.
  abbrev pub IsBefore : (A → A → Type 0) → List A × List A → Type 0
  IsBefore R (granted, remaining) = All (λ g. All (λ r. R r g) remaining) granted

  take_last-IsBefore :
      (R : A → A → Type 0) (budget : ℕ) (xs : List A)
      → IsOrdered R xs
      → IsBefore R (take_last budget xs)
  unfolding take_last
  take_last-IsBefore R zero xs h = tt
  take_last-IsBefore R (suc budget) xs h =
      round (pop xs) (pop-IsPopped R xs h) (take_last-IsBefore R budget)
    where
      round :
          (o : Option (A × List A))
          → IsPopped R o
          → ((ys : List A) → IsOrdered R ys → IsBefore R (take_last budget ys))
          → IsBefore R (take_popped xs (take_last budget) o)
      round none k f = tt
      round (some (last, rest)) k f =
          (take_last-remaining (λ a. R a last) budget rest k.0, f rest k.1)

-- The second hint is in a sphere no later, and in the same sphere it is for another slot if the first
-- is.
abbrev pub Yields : (ℕ → ℤ → ℕ) → Hint → Hint → Type 0
Yields sphere_of r g =
    sphere_at sphere_of g ≤ sphere_at sphere_of r
    × (sphere_at sphere_of r ≤ sphere_at sphere_of g → remote r ≤ remote g)

-- Whatever order the candidates were shuffled into, each hint that is granted is in a sphere no later
-- than each that remains, and of two in the same sphere it is the one for another slot if either is.
pub grant-IsBefore :
    (sphere_of : ℕ → ℤ → ℕ) (budget : ℕ) (candidates : List Hint)
    → IsBefore (Yields sphere_of) (grant sphere_of budget candidates)
unfolding grant
grant-IsBefore sphere_of budget candidates =
    take_last-IsBefore (Yields sphere_of) budget
      (sort_by (later_leb sphere_of) (sort_by local_leb candidates))
      (sort_by-IsOrdered (later_leb sphere_of) (Yields sphere_of) Yields-trans
        (sort_by local_leb candidates)
        (IsOrdered-map (λ a b. remote a ≤ remote b)
          (Decides (later_leb sphere_of) (Yields sphere_of)) decides (sort_by local_leb candidates)
          (sort_by-IsOrdered local_leb (λ a b. remote a ≤ remote b) (λ a b c h k. omega arith)
            candidates
            (IsOrdered-of (Decides local_leb (λ a b. remote a ≤ remote b))
              (λ a b. (leb→le (remote a) (remote b), leb_false→ge (remote a) (remote b)))
              candidates))))
  where
    s : Hint → ℕ
    s = sphere_at sphere_of

    Yields-trans :
        (a b c : Hint) → Yields sphere_of a b → Yields sphere_of b c → Yields sphere_of a c
    Yields-trans a b c h k = lex_trans (s a) (s b) (s c) (remote a) (remote b) (remote c) h k

    decides :
        (a b : Hint) → remote a ≤ remote b → Decides (later_leb sphere_of) (Yields sphere_of) a b
    decides a b h = lex_decides (s a) (s b) (remote a) (remote b) h

-- ===== src/Tsort/Members.antt =====
-- Lists of distinct nodes: lengths, and the order of two members.
use blivet.Prelude.{
  ℕ, suc, ◌≤◌, ◌≡◌, Bool, true, false, ◌||◌, arith, List, [], ◌∷◌, ◌++◌, length, if◌then◌else◌,
  ◌==◌, ==_iff, ==_refl, Bool-cases, inl, inr, reverse, length-append, elem, IsDistinct,
  IsDistinct-snoc,
}
use mathlib.Core.List.{reverse-append}
use blivet.Tsort.Graph.{Edge}
use blivet.Tsort.Invariant.{elem_edge}
use blivet.Tsort.Loop.{IsOrdered}

erase : ℕ → List ℕ → List ℕ
erase x [] = []
erase x (y ∷ ys) = let rest = erase x ys in if x == y then ys else y ∷ rest

length-erase : (x : ℕ) (ys : List ℕ) → elem x ys ≡ true → length ys ≡ suc (length (erase x ys))
unfolding erase
length-erase x [] h = cc
length-erase x (y ∷ ys) h = ground (arith, length-erase x ys)

elem-erase :
    (x z : ℕ) (ys : List ℕ) → (z == x) ≡ false → elem z ys ≡ true → elem z (erase x ys) ≡ true
unfolding erase
elem-erase x z [] o h = cc
elem-erase x z (y ∷ ys) o h = ground (arith, elem-erase x z ys, ==_iff x y, ==_iff z y, ==_iff z x)

ne-of_elem : (x z : ℕ) (xs : List ℕ) → elem x xs ≡ false → elem z xs ≡ true → (z == x) ≡ false
ne-of_elem x z xs h m = elim (Bool-cases (z == x)) [
  | inl same ↦ ground (arith, ==_iff z x)
  | inr differs ↦ differs
]

-- Distinct members of a list are no more than its members.
pub distinct-length-le :
    (xs ys : List ℕ)
    → IsDistinct xs
    → ((x : ℕ) → elem x xs ≡ true → elem x ys ≡ true)
    → length xs ≤ length ys
distinct-length-le [] ys d sub = omega arith
distinct-length-le (x ∷ xs) ys d sub =
    let here = sub x (ground (arith, ==_refl x)) in
    omega (
      arith,
      length-erase x ys here,
      distinct-length-le xs (erase x ys) d.1
          (λ z m. elem-erase x z ys (ne-of_elem x z xs d.0 m) (sub z (ground (arith, m)))),
    )

-- If they are as many, they are all of them.
pub distinct-covers :
    (xs ys : List ℕ)
    → IsDistinct xs
    → ((x : ℕ) → elem x xs ≡ true → elem x ys ≡ true)
    → length xs ≡ length ys
    → (y : ℕ) → elem y ys ≡ true
    → elem y xs ≡ true
distinct-covers xs ys d sub same y m = elim (Bool-cases (elem y xs)) [
  | inl there ↦ there
  | inr missing ↦ absurd (
      omega (
        arith,
        same,
        distinct-length-le (y ∷ xs) ys (missing, d)
            (λ x h. ground (arith, h, m, sub x, ==_iff x y)),
      ))
]

-- `p` stands before `c`.
abbrev pub precedes : ℕ → ℕ → List ℕ → Bool
precedes p c [] = false
precedes p c (x ∷ xs) = if p == x then elem c xs else precedes p c xs

pub elem-append : (x : ℕ) (xs ys : List ℕ) → elem x (xs ++ ys) ≡ (elem x xs || elem x ys)
elem-append x [] ys = ground arith
elem-append x (y ∷ xs) ys = ground (arith, elem-append x xs ys)

precedes-snoc_old :
    (p c x : ℕ) (xs : List ℕ) → precedes p c xs ≡ true → precedes p c (xs ++ x ∷ []) ≡ true
precedes-snoc_old p c x [] h = cc
precedes-snoc_old p c x (y ∷ xs) h =
    ground (arith, precedes-snoc_old p c x xs, elem-append c xs (x ∷ []))

precedes-snoc_new : (p c : ℕ) (xs : List ℕ) → elem p xs ≡ true → precedes p c (xs ++ c ∷ []) ≡ true
precedes-snoc_new p c [] h = cc
precedes-snoc_new p c (y ∷ xs) h =
    ground (arith, precedes-snoc_new p c xs, elem-append c xs (c ∷ []), ==_refl c)

pub elem-reverse : (x : ℕ) (xs : List ℕ) → elem x (reverse xs) ≡ elem x xs
elem-reverse x [] = ground arith
elem-reverse x (y ∷ xs) =
    rw (reverse-append (y ∷ []) xs)
      (ground (arith, elem-append x (reverse xs) (y ∷ []), elem-reverse x xs))

pub length-reverse : (xs : List ℕ) → length (reverse xs) ≡ length xs
length-reverse [] = ground arith
length-reverse (y ∷ xs) =
    rw (reverse-append (y ∷ []) xs)
      (omega (arith, length-append (reverse xs) (y ∷ []), length-reverse xs))

pub IsDistinct-reverse : (xs : List ℕ) → IsDistinct xs → IsDistinct (reverse xs)
IsDistinct-reverse [] d = ground arith
IsDistinct-reverse (x ∷ xs) d =
    rw (reverse-append (x ∷ []) xs)
      (IsDistinct-snoc (reverse xs) x (IsDistinct-reverse xs d.1) (rw elem-reverse d.0))

-- In a reversed list whose members stand behind their parents, parents come first.
pub precedes-reverse :
    (given : List Edge) (p c : ℕ) (done : List ℕ)
    → IsOrdered given done
    → elem_edge (p, c) given ≡ true
    → elem c done ≡ true
    → precedes p c (reverse done) ≡ true
precedes-reverse given p c [] o h m = cc
precedes-reverse given p c (x ∷ done) o h m =
    rw (reverse-append (x ∷ []) done) (elim (Bool-cases (c == x)) [
      | inl same ↦
          let e : c ≡ x = (==_iff c x).0 same in
          rw (← e) (precedes-snoc_new p c (reverse done) (rw elem-reverse (o.0 p (rw e at h))))
      | inr differs ↦
          precedes-snoc_old p c x (reverse done)
            (precedes-reverse given p c done o.1 h (rw differs at m))
    ])

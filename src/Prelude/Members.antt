-- ===== src/Prelude/Members.antt =====
-- Lists of numbers as Python uses them where order does not matter: `in`, `list.remove`, and lists
-- without repetition.
use Prim.Native.Nat.{ℕ}
use mathlib.Core.Path.{◌≡◌, refl, ap}
use mathlib.Core.Bool.{Bool, true, false, not, ◌&&◌, ◌||◌}
use mathlib.Core.List.{List, [], ◌∷◌, ◌++◌}
use mathlib.Core.Logic.{inl, inr}
use native.Mathlib.Omega.{arith}
use blivet.Prelude.Lists.{all, any, keep}
use blivet.Prelude.Tests.{◌==◌, if◌then◌else◌, Bool-cases, ==_iff}
use blivet.Prelude.Errors.{Result, ok, err, value_error}

abbrev pub elem : ℕ → List ℕ → Bool
elem x [] = false
elem x (y ∷ ys) = x == y || elem x ys

abbrev pub IsDistinct : List ℕ → Type 0
IsDistinct [] = Unit
IsDistinct (x ∷ xs) = (elem x xs ≡ false) × IsDistinct xs

-- The list less the first copy of a number.
abbrev pub without : ℕ → List ℕ → List ℕ
without x [] = []
without x (y ∷ ys) = if y == x then ys else y ∷ without x ys

-- `list.remove`
abbrev pub remove_item : ℕ → List ℕ → Result (List ℕ)
remove_item x ys = if elem x ys then ok (without x ys) else err value_error

pub elem-snoc : (x y : ℕ) (xs : List ℕ) → elem x (xs ++ y ∷ []) ≡ (elem x xs || x == y)
elem-snoc x y [] = ground arith
elem-snoc x y (z ∷ xs) = ground (arith, elem-snoc x y xs)

pub IsDistinct-snoc :
    (xs : List ℕ) (x : ℕ) → IsDistinct xs → elem x xs ≡ false → IsDistinct (xs ++ x ∷ [])
IsDistinct-snoc [] x d h = ground arith
IsDistinct-snoc (y ∷ xs) x d h =
    (ground (arith, elem-snoc y x xs), IsDistinct-snoc xs x d.1 (ground arith))

pub elem-without :
    (x y : ℕ) (xs : List ℕ) → IsDistinct xs → elem x (without y xs) ≡ (elem x xs && not (x == y))
elem-without x y [] d = refl
elem-without x y (z ∷ xs) d = ground (arith, elem-without x y xs d.1)

pub IsDistinct-without : (x : ℕ) (xs : List ℕ) → IsDistinct xs → IsDistinct (without x xs)
IsDistinct-without x [] d = tt
IsDistinct-without x (y ∷ xs) d = elim (Bool-cases (y == x)) [
  | inl here ↦ rw here d.1
  | inr past ↦ rw past (ground (arith, elem-without y x xs d.1), IsDistinct-without x xs d.1)
]

pub all-elem :
    (test : ℕ → Bool) (xs : List ℕ)
    → all test xs ≡ true
    → (x : ℕ) → elem x xs ≡ true
    → test x ≡ true
all-elem test [] h x e = cc
all-elem test (y ∷ ys) h x e = elim (Bool-cases (x == y)) [
  | inl here ↦ let same : test x ≡ test y = ap test ((==_iff x y).0 here) in ground (arith, same)
  | inr past ↦ all-elem test ys (ground arith) x (ground (arith, past))
]

pub elem-all :
    (test : ℕ → Bool) (xs : List ℕ)
    → ((x : ℕ) → elem x xs ≡ true → test x ≡ true)
    → all test xs ≡ true
elem-all test [] h = refl
elem-all test (y ∷ ys) h =
    rw (h y (ground arith)) (elem-all test ys (λ x e. h x (ground (arith, e))))

pub elem-any :
    (test : ℕ → Bool) (xs : List ℕ)
    → ((x : ℕ) → elem x xs ≡ true → test x ≡ false)
    → any test xs ≡ false
elem-any test [] h = refl
elem-any test (y ∷ ys) h =
    rw (h y (ground arith)) (elem-any test ys (λ x e. h x (ground (arith, e))))

pub any-elem :
    (test : ℕ → Bool) (xs : List ℕ)
    → any test xs ≡ true
    → (x : ℕ) × (elem x xs ≡ true) × (test x ≡ true)
any-elem test [] h = cc
any-elem test (y ∷ ys) h = elim (Bool-cases (test y)) [
  | inl here ↦ (y, ground arith, here)
  | inr past ↦
      let (x, e, e') = any-elem test ys (ground (arith, past)) in (x, ground (arith, e), e')
]

pub elem→any :
    (test : ℕ → Bool) (xs : List ℕ) (x : ℕ) → elem x xs ≡ true → test x ≡ true → any test xs ≡ true
elem→any test [] x h h' = cc
elem→any test (y ∷ ys) x h h' = elim (Bool-cases (x == y)) [
  | inl here ↦ let same : test x ≡ test y = ap test ((==_iff x y).0 here) in ground (arith, same)
  | inr past ↦ ground (arith, elem→any test ys x (ground (arith, past)) h')
]

pub elem-keep :
    (test : ℕ → Bool) (xs : List ℕ) (x : ℕ) → elem x (keep test xs) ≡ (elem x xs && test x)
elem-keep test [] x = refl
elem-keep test (y ∷ ys) x = elim (Bool-cases (x == y)) [
  | inl here ↦
      let same : test x ≡ test y = ap test ((==_iff x y).0 here) in
      ground (arith, same, elem-keep test ys x)
  | inr past ↦ ground (arith, past, elem-keep test ys x)
]

-- ===== src/Placement/Antisymmetry.antt =====
-- `partition_compare` of blivet/partitioning.py is a comparison: it is the opposite of itself with
-- the two partitions exchanged.
use blivet.Prelude.{
  ℕ, Bool, ◌≡◌, refl, ap, Option, none, some, arith, int_laws, ℤ, pos, ◌+ℤ◌, List, [], ◌∷◌,
}
use blivet.Placement.Compare.{
  Wish, Mountpoint, Sign, more, same, less, opposite, times, compare_numbers, compare_mountpoints,
  compare_disks, compare_limits, compare_growth, terms, sum_ℤ, sign_of, compare_starts, or_weighed,
  partition_compare, to_number, compare_flags,
}

pub compare_numbers-opposite : (a b : ℕ) → compare_numbers a b ≡ opposite (compare_numbers b a)
compare_numbers-opposite a b = ground arith

pub compare_flags-opposite : (a b : Option Bool) → compare_flags a b ≡ opposite (compare_flags b a)
compare_flags-opposite none none = refl
compare_flags-opposite none (some b) = refl
compare_flags-opposite (some a) none = refl
compare_flags-opposite (some a) (some b) = compare_numbers-opposite (to_number a) (to_number b)

compare_mountpoints-opposite :
    (a b : Mountpoint) → compare_mountpoints a b ≡ opposite (compare_mountpoints b a)
compare_mountpoints-opposite a b = ground arith

compare_disks-opposite : (a b : ℕ) → compare_disks a b ≡ opposite (compare_disks b a)
compare_disks-opposite a b = ground arith

pub compare_limits-opposite : (a b : ℕ) → compare_limits a b ≡ opposite (compare_limits b a)
compare_limits-opposite a b = ground arith

compare_growth-opposite : (p q : Wish) → compare_growth p q ≡ opposite (compare_growth q p)
compare_growth-opposite p q = ground (arith, compare_limits-opposite p.req_max_size q.req_max_size)

-- Opposite results cancel.
times_cancel : (s t : Sign) (k : ℕ) → s ≡ opposite t → times s k +ℤ times t k ≡ pos 0
times_cancel s more k e = rw e (grind int_laws)
times_cancel s same k e = rw e (grind int_laws)
times_cancel s less k e = rw e (grind int_laws)

-- Lists whose members cancel one another.
abbrev Cancel : List ℤ → List ℤ → Type 0
Cancel [] [] = Unit
Cancel (x ∷ xs) (y ∷ ys) = (x +ℤ y ≡ pos 0) × Cancel xs ys
Cancel _ _ = ⊥

pairwise : (a b c d : ℤ) → (a +ℤ b) +ℤ (c +ℤ d) ≡ (a +ℤ c) +ℤ (b +ℤ d)
pairwise a b c d = grind int_laws

sum_ℤ-Cancel : (xs ys : List ℤ) → Cancel xs ys → sum_ℤ xs +ℤ sum_ℤ ys ≡ pos 0
sum_ℤ-Cancel [] [] h = grind int_laws
sum_ℤ-Cancel (x ∷ xs) (y ∷ ys) h = rw (pairwise, h.0, sum_ℤ-Cancel xs ys h.1) (grind int_laws)
sum_ℤ-Cancel [] (y ∷ ys) h = elim h [ ]
sum_ℤ-Cancel (x ∷ xs) [] h = elim h [ ]

terms-Cancel : (p q : Wish) → Cancel (terms p q) (terms q p)
terms-Cancel p q = (
  grind int_laws,
  (
    times_cancel _ _ 500 (compare_disks-opposite p.req_disks q.req_disks),
    (
      times_cancel _ _ 200 (ap opposite (compare_flags-opposite p.req_primary q.req_primary)),
      (
        times_cancel _ _ 100 (compare_flags-opposite p.req_grow q.req_grow),
        (
          times_cancel _ _ 50
              (ap opposite (compare_numbers-opposite p.req_base_size q.req_base_size)),
          (
            times_cancel _ _ 25 (compare_growth-opposite p q),
            (times_cancel _ _ 10 (compare_mountpoints-opposite p.mountpoint q.mountpoint), tt),
          ),
        ),
      ),
    ),
  ),
)

sign_of-opposite : (x y : ℤ) → x +ℤ y ≡ pos 0 → sign_of x ≡ opposite (sign_of y)
sign_of-opposite x y h = grind (int_laws, h)

-- A start sector decides before the weights do.
starts_first :
    (a b : Option ℕ) (x y : ℤ)
    → sign_of x ≡ opposite (sign_of y)
    → or_weighed (compare_starts a b) x ≡ opposite (or_weighed (compare_starts b a) y)
starts_first none none x y h = h
starts_first (some a) none x y h = refl
starts_first none (some b) x y h = refl
starts_first (some a) (some b) x y h = compare_numbers-opposite a b

-- Comparing two partitions in the other order gives the opposite result.
pub partition_compare-opposite :
    (p q : Wish) → partition_compare p q ≡ opposite (partition_compare q p)
unfolding partition_compare
partition_compare-opposite p q =
    starts_first p.req_start_sector q.req_start_sector (sum_ℤ (terms p q)) (sum_ℤ (terms q p)) (
      sign_of-opposite (sum_ℤ (terms p q)) (sum_ℤ (terms q p))
        (sum_ℤ-Cancel (terms p q) (terms q p) (terms-Cancel p q)))

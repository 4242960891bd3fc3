-- ===== src/Raid/Bounds.antt =====
-- `get_size` of blivet/devicelibs/raid.py against the space of the members.
use native.Mathlib.Nat.{mul-le-mul_left}
use blivet.Prelude.{
  ℕ, zero, suc, ◌-◌, ◌*◌, ◌<◌, ◌≤◌, ◌≡◌, Result, ok, arith, pos, refl, ℤ, >>=-eq-ok, ok-injective,
  subst, List, [], ◌∷◌, length, sum_of, none, some, ◌≤ℤ◌, ◌-ℤ◌, int_laws, pos-sub,
}
use blivet.Raid.Level.{Level, raid1, raid10, container, linear, single, dup}
use blivet.Raid.Rounding.{floor_to, floor_to_bounds, trim-floor_to}
use blivet.Raid.Sizes.{
  Bytesize, trim, net_array_size, get_net_array_size, min_size, size_of_smallest, get_size,
}

pub length-mul-min_size :
    (s : ℕ) (sizes : List ℕ) → length (s ∷ sizes) * min_size s sizes ≤ sum_of (λ x. x) (s ∷ sizes)
length-mul-min_size s [] = omega arith
length-mul-min_size s (x ∷ xs) = grind (arith, length-mul-min_size x xs, mul-le-mul_left)

le-mul : (n k : ℕ) → 0 < n → k ≤ n * k
le-mul zero k h = elim h [ ]
le-mul (suc n) k h = grind arith

pub get_net_array_size-le :
    (level : Level) (n k : ℕ) {t : ℕ} → get_net_array_size level n (pos k) ≡ ok t → t ≤ n * k
unfolding get_net_array_size net_array_size
get_net_array_size-le raid1 n k h = ground (arith, le-mul n k)
get_net_array_size-le raid10 n k h = grind arith
get_net_array_size-le level n k h = grind arith

-- The size that `_trim` leaves of a size that is not negative: at most that size.
trim-le :
    (ops : Bytesize) (level : Level) (a c : ℕ) {t : ℤ}
    → 0 < c
    → trim ops level (pos a) c ≡ ok t
    → (u : ℕ) × (t ≡ pos u) × (u ≤ a)
unfolding trim
trim-le ops raid1 a c h e = (a, ground arith, omega arith)
trim-le ops raid10 a c h e = (a, ground arith, omega arith)
trim-le ops container a c h e = cc
trim-le ops linear a c h e = cc
trim-le ops single a c h e = cc
trim-le ops dup a c h e = cc
trim-le ops level a c h e =
    (floor_to a c, ground (arith, trim-floor_to ops level a c), omega (arith, floor_to_bounds a c))

module _ (ops : Bytesize) (level : Level) (n smallest c : ℕ) (superblock_size : ℤ → ℕ) where
  -- A result of `size_of_smallest` passed `_trim` and `get_net_array_size`.
  pub size_of_smallest-eq-ok :
      {t : ℤ}
      → size_of_smallest ops level n smallest c superblock_size ≡ ok t
      → (d : ℤ) × (net : ℕ) × (trim ops level
            (pos smallest -ℤ pos (superblock_size (pos smallest)))
            c
          ≡ ok d)
        × (get_net_array_size level n d ≡ ok net)
        × (t ≡ pos net)
  unfolding size_of_smallest
  size_of_smallest-eq-ok e =
      let (d, trimmed, rest) = >>=-eq-ok (trim ops level _ c) _ e in
      let (net, sized, last) = >>=-eq-ok (get_net_array_size level n d) _ rest in
      (d, net, trimmed, sized, cc)

  net-le :
      (sb : ℕ) (d : ℤ) (net : ℕ)
      → 0 < c
      → sb ≤ smallest
      → trim ops level (pos smallest -ℤ pos sb) c ≡ ok d
      → get_net_array_size level n d ≡ ok net
      → net ≤ n * smallest
  net-le sb d net h fits trimmed sized =
      let (u, as_pos, le) = trim-le ops level (smallest - sb) c h (rw pos-sub at trimmed) in
      grind (arith, get_net_array_size-le level n u (rw as_pos at sized), mul-le-mul_left)

  size_of_smallest-le :
      {t : ℤ}
      → 0 < c
      → superblock_size (pos smallest) ≤ smallest
      → size_of_smallest ops level n smallest c superblock_size ≡ ok t
      → t ≤ℤ pos (n * smallest)
  size_of_smallest-le h fits e =
      let (d, net, trimmed, sized, last) = size_of_smallest-eq-ok e in
      rw last (omega (arith, net-le (superblock_size (pos smallest)) d net h fits trimmed sized))

-- RAID1 does not round, so its chunk is of no concern.
pub size_of_smallest_raid1 :
    (ops : Bytesize) (n smallest c c' : ℕ) (superblock_size : ℤ → ℕ)
    → size_of_smallest ops raid1 n smallest c superblock_size
      ≡ size_of_smallest ops raid1 n smallest c' superblock_size
unfolding size_of_smallest trim
size_of_smallest_raid1 ops n smallest c c' superblock_size = refl

module _ (ops : Bytesize) (superblock_size : ℤ → ℕ) (s : ℕ) (sizes : List ℕ) (c : ℕ) {t : ℤ}
    (fits : superblock_size (pos (min_size s sizes)) ≤ min_size s sizes) where
  raidn-le :
      (level : Level)
      → size_of_smallest ops level (length (s ∷ sizes)) (min_size s sizes) (suc c) superblock_size
        ≡ ok t
      → t ≤ℤ pos (sum_of (λ x. x) (s ∷ sizes))
  raidn-le level e = omega (
    arith,
    length-mul-min_size s sizes,
    size_of_smallest-le ops level (length (s ∷ sizes)) (min_size s sizes) (suc c) superblock_size
        (omega arith) fits e,
  )

  ersatz-le :
      (b : ℕ)
      → ◌≡◌ {A = Result ℤ} (ok (pos (sum_of (λ x. x) (s ∷ sizes)) -ℤ pos b)) (ok t)
      → t ≤ℤ pos (sum_of (λ x. x) (s ∷ sizes))
  ersatz-le b e =
      let total = sum_of (λ x. x) (s ∷ sizes) in
      subst (λ x. x ≤ℤ pos total) (ok-injective e) (omega int_laws)

  -- Whatever the level, the size computed for an array of the given members is at most the space
  -- of its members together, where the computation returns, for a chunk that is not empty and a
  -- superblock that fits on the smallest member.
  pub get_size-le-sum :
      (level : Level)
      → get_size ops level (s ∷ sizes) none (some (suc c)) (some superblock_size) ≡ ok t
      → t ≤ℤ pos (sum_of (λ x. x) (s ∷ sizes))
  unfolding get_size
  get_size-le-sum raid1 e =
      raidn-le raid1
        (rw (size_of_smallest_raid1 ops (length (s ∷ sizes)) (min_size s sizes) (suc c) 0) e)
  get_size-le-sum container e = ground arith
  get_size-le-sum linear e = ersatz-le _ e
  get_size-le-sum single e = ersatz-le _ e
  get_size-le-sum dup e = cc
  get_size-le-sum level e = raidn-le level e

-- ===== src/Raid/Space.antt =====
-- `get_space` of blivet/devicelibs/raid.py against `get_size`: the space asked for is enough.
use native.Mathlib.Nat.{mul-le-mul_left, div-add-mod', mul-sub, mul-div_left, le-div_iff_mul-le}
use blivet.Prelude.{
  ℕ, suc, ◌-◌, ◌*◌, ◌+◌, ◌/◌, ◌%◌, ◌<◌, ◌≤◌, ◌≡◌, ok, arith, pos, refl, sym, ap, ◌∙◌, pos_part,
  true, ℤ, >>=-eq-ok, ok-injective, subst, List, [], ◌∷◌, length, All, none, some, pos-sub,
}
use blivet.Raid.Level.{
  Level, raid0, striped, raid1, raid4, raid5, raid6, raid10, container, linear, single, dup,
  is_raidn,
}
use blivet.Raid.Rounding.{floor_to, rounds_up, trim-floor_to, pad_least}
use blivet.Raid.Sizes.{
  Bytesize, trim, pad, get_base_member_size, net_array_size, get_net_array_size, min_size,
  size_of_smallest, get_size, get_space,
}
use blivet.Raid.Capacity.{capacity_galois}
use blivet.Raid.Bounds.{size_of_smallest_raid1}

-- A constant superblock.
abbrev pub constant : ℕ → ℤ → ℕ
constant k size = k

-- A result of `get_space` at a level of class RAIDn.
get_space-eq-ok :
    (level : Level) (size n c k : ℕ) {space : ℤ}
    → is_raidn level ≡ true
    → get_space level (pos size) n (some c) (some (constant k)) ≡ ok space
    → (base : ℕ) × (per : ℕ) × (get_base_member_size level (pos size) n ≡ ok base)
      × (pad level (base + k) c ≡ ok per)
      × (space ≡ pos (per * n))
unfolding get_space
get_space-eq-ok container size n c k r e = cc
get_space-eq-ok linear size n c k r e = cc
get_space-eq-ok single size n c k r e = cc
get_space-eq-ok dup size n c k r e = cc
get_space-eq-ok level size n c k r e =
    let (base, based, rest) = >>=-eq-ok (get_base_member_size level (pos size) n) _ e in
    let (per, padded, last) = >>=-eq-ok (pad level (base + k) c) _ rest in
    (base, per, based, padded, cc)

-- A multiple of `c` is kept by rounding down to one.
floor_to_keeps : (a c q : ℕ) → 0 < c → q * c ≤ a → q * c ≤ floor_to a c
floor_to_keeps a c q h le =
    grind (arith, mul-le-mul_left, (le-div_iff_mul-le {x = q} {y = a} h).1 le)

min_size_ge : (m s : ℕ) (sizes : List ℕ) → All (λ x. m ≤ x) (s ∷ sizes) → m ≤ min_size s sizes
min_size_ge m s [] h = h.0
min_size_ge m s (x ∷ xs) h = omega (arith, h.0, min_size_ge m x xs h.1)

pad_chunked :
    (level : Level) (x c : ℕ) {per : ℕ}
    → rounds_up level ≡ true
    → pad level x (suc c) ≡ ok per
    → (x ≤ per) × (per % suc c ≡ 0)
pad_chunked level x c r e =
    let (t, e', le, _, whole) = pad_least level x (suc c) r (omega arith) in
    subst (λ y. (x ≤ y) × (y % suc c ≡ 0)) (ok-injective (sym e' ∙ e)) (le, whole)

-- With the superblock taken off again, whole chunks still hold the base size.
floor_holds :
    (base per a c j : ℕ)
    → base + j * suc c ≤ per
    → per % suc c ≡ 0
    → per ≤ a
    → base ≤ floor_to (a - j * suc c) (suc c)
floor_holds base per a c j fits whole le =
    let q = per / suc c in
    let e : q * suc c ≡ per = omega (arith, div-add-mod' per (suc c)) in
    let split : (q - j) * suc c ≡ per - j * suc c = omega (arith, mul-sub (suc c) q j, e) in
    omega (
      arith,
      split,
      floor_to_keeps (a - j * suc c) (suc c) (q - j) (omega arith) (omega (arith, split)),
    )

-- What `_trim` leaves of a member of at least the padded size holds the base size.
trim_holds :
    (ops : Bytesize) (level : Level) (base a c j : ℕ) {per : ℕ}
    → is_raidn level ≡ true
    → pad level (base + j * suc c) (suc c) ≡ ok per
    → per ≤ a
    → (u : ℕ) × (trim ops level (pos (a - j * suc c)) (suc c) ≡ ok (pos u)) × (base ≤ u)
trim_holds ops raid1 base a c j r e le =
    (a - j * suc c, unfold trim in refl, unfold pad in ground arith)
trim_holds ops raid10 base a c j r e le = (
  a - j * suc c,
  unfold trim in refl,
  omega (arith, pad_chunked raid10 (base + j * suc c) c refl e),
)
trim_holds ops container base a c j r e le = cc
trim_holds ops linear base a c j r e le = cc
trim_holds ops single base a c j r e le = cc
trim_holds ops dup base a c j r e le = cc
trim_holds ops level base a c j {per} r e le =
    let (fits, whole) = pad_chunked level (base + j * suc c) c refl e in
    (
      floor_to (a - j * suc c) (suc c),
      trim-floor_to ops level (a - j * suc c) (suc c) refl (omega arith),
      floor_holds base per a c j fits whole le,
    )

-- Where a base size is given, an array has a capacity.
net_total :
    (level : Level) (size n u : ℕ) {base : ℕ}
    → get_base_member_size level (pos size) n ≡ ok base
    → (net : ℕ) × (get_net_array_size level n (pos u) ≡ ok net)
unfolding get_base_member_size get_net_array_size net_array_size
net_total raid0 size n u e = (u * n, ground arith)
net_total striped size n u e = (u * n, ground arith)
net_total raid1 size n u e = (u, ground arith)
net_total raid4 size n u e = (u * (n - 1), ground arith)
net_total raid5 size n u e = (u * (n - 1), ground arith)
net_total raid6 size n u e = (u * (n - 2), ground arith)
net_total raid10 size n u e = (u * (n / 2), ground arith)
net_total level size n u e = absurd (ground arith)

-- The end of `get_size` on members whose smallest has at least the padded size.
smallest_suffices :
    (ops : Bytesize) (level : Level) (size n a c j : ℕ) {base per : ℕ}
    → is_raidn level ≡ true
    → get_base_member_size level (pos size) n ≡ ok base
    → pad level (base + j * suc c) (suc c) ≡ ok per
    → base + j * suc c ≤ per
    → per ≤ a
    → (net : ℕ) × (size_of_smallest ops level n a (suc c) (constant (j * suc c)) ≡ ok (pos net))
      × (size ≤ net)
unfolding size_of_smallest
smallest_suffices ops level size n a c j {base} r based padded ge le =
    let (u, trimmed, holds) = trim_holds ops level base a c j r padded le in
    let (net, sized) = net_total level size n u based in
    (
      net,
      rw (pos-sub a (j * suc c) (omega arith), trimmed, sized),
      (capacity_galois level size n u based sized).0 holds,
    )

get_size_raidn :
    (ops : Bytesize) (level : Level) (s : ℕ) (sizes : List ℕ) (c k : ℕ)
    → is_raidn level ≡ true
    → get_size ops level (s ∷ sizes) none (some (suc c)) (some (constant k))
      ≡ size_of_smallest ops level (length (s ∷ sizes)) (min_size s sizes) (suc c) (constant k)
unfolding get_size
get_size_raidn ops raid1 s sizes c k r =
    size_of_smallest_raid1 ops (length (s ∷ sizes)) (min_size s sizes) 0 (suc c) (constant k)
get_size_raidn ops level s sizes c k r = ground arith

pad_ge :
    (level : Level) (x c : ℕ) {per : ℕ}
    → is_raidn level ≡ true
    → pad level x (suc c) ≡ ok per
    → x ≤ per
pad_ge raid1 x c r e = unfold pad in ground arith
pad_ge container x c r e = cc
pad_ge linear x c r e = cc
pad_ge single x c r e = cc
pad_ge dup x c r e = cc
pad_ge level x c r e = (pad_chunked level x c refl e).0

-- The space that `get_space` asks for is enough: `get_size` of any members that are each at least
-- as large as that space over their number succeeds, and gives at least the size asked for. The
-- level is of class RAIDn, the chunk is not empty, and the superblock always takes the same whole
-- number of chunks.
pub space_suffices :
    (ops : Bytesize) (level : Level) (size c j space s : ℕ) (sizes : List ℕ)
    → is_raidn level ≡ true
    → get_space level (pos size) (length (s ∷ sizes)) (some (suc c)) (some (constant (j * suc c)))
      ≡ ok (pos space)
    → All (λ x. space / length (s ∷ sizes) ≤ x) (s ∷ sizes)
    → (net : ℕ) × (get_size ops level (s ∷ sizes) none (some (suc c)) (some (constant (j * suc c)))
        ≡ ok (pos net))
      × (size ≤ net)
space_suffices ops level size c j space s sizes r spaced members =
    let n = length (s ∷ sizes) in
    let (base, per, based, padded, e) = get_space-eq-ok level size n (suc c) (j * suc c) r spaced in
    let total : space ≡ per * n = omega (arith, ap pos_part e) in
    let each : space / n ≡ per = rw total (mul-div_left per (omega arith)) in
    rw (get_size_raidn ops level s sizes c (j * suc c) r) (
      smallest_suffices ops level size n (min_size s sizes) c j r based padded
        (pad_ge level (base + j * suc c) c r padded)
        (omega (arith, each, min_size_ge (space / n) s sizes members)))

-- ===== src/Placement/Compare.antt =====
-- `partition_compare` of blivet/partitioning.py, by which the requests are sorted, and `compare` of
-- blivet/util.py.
use blivet.Prelude.{
  ℕ, Bool, true, false, ◌&&◌, Option, none, some, ℤ, pos, ◌+ℤ◌, ◌-ℤ◌, ltb_ℤ, ltb, is_true, ◌==◌,
  if◌then◌else◌, List, [], ◌∷◌,
}

-- What the comparison reads of a partition, `req_disks` being the number of the disks. A mountpoint
-- is its rank in the order of the strings; the attribute may be None, or missing in the format.
pub data Mountpoint : Type 0 where
  missing no_mountpoint : Mountpoint
  mounted : ℕ → Mountpoint

pub record Wish : Type 0 where
  pub req_start_sector : Option ℕ
  pub weight : ℤ
  pub req_disks : ℕ
  pub req_primary : Option Bool
  pub req_grow : Option Bool
  pub req_base_size : ℕ
  pub req_max_size : ℕ
  pub mountpoint : Mountpoint

-- The results 1, 0 and -1 of `compare`.
pub data Sign : Type 0 where
  more same less : Sign

abbrev pub opposite : Sign → Sign
opposite more = less
opposite same = same
opposite less = more

-- A result of `compare` times a weight.
abbrev pub times : Sign → ℕ → ℤ
times more k = pos k
times same k = pos 0
times less k = pos 0 -ℤ pos k

abbrev pub compare_numbers : ℕ → ℕ → Sign
compare_numbers a b = if ltb b a then more else if ltb a b then less else same

abbrev pub to_number : Bool → ℕ
to_number true = 1
to_number false = 0

-- A flag may be None, which comes before the others.
abbrev pub compare_flags : Option Bool → Option Bool → Sign
compare_flags none none = same
compare_flags none (some b) = less
compare_flags (some a) none = more
compare_flags (some a) (some b) = compare_numbers (to_number a) (to_number b)

abbrev pub compare_mountpoints : Mountpoint → Mountpoint → Sign
compare_mountpoints missing b = same
compare_mountpoints a missing = same
compare_mountpoints no_mountpoint no_mountpoint = same
compare_mountpoints no_mountpoint (mounted b) = less
compare_mountpoints (mounted a) no_mountpoint = more
compare_mountpoints (mounted a) (mounted b) = compare_numbers a b

-- Fewer disks come first, and no disk at all stands for any.
abbrev pub compare_disks : ℕ → ℕ → Sign
compare_disks a b =
    if ltb 0 a && (b == 0) then less else if (a == 0) && ltb 0 b then more else compare_numbers a b

-- Two requests that both grow: the larger maximum comes first, and 0 stands for none.
abbrev pub compare_limits : ℕ → ℕ → Sign
compare_limits a b =
    if (a == 0) && ltb 0 b
    then less
    else if ltb 0 a && (b == 0)
    then more
    else opposite (compare_numbers a b)

abbrev pub compare_growth : Wish → Wish → Sign
compare_growth p q =
    if is_true p.req_grow && is_true q.req_grow
    then compare_limits p.req_max_size q.req_max_size
    else same

-- What each criterion adds to `ret`.
abbrev pub terms : Wish → Wish → List ℤ
terms p q =
    (q.weight -ℤ p.weight)
    ∷ times (compare_disks p.req_disks q.req_disks) 500
    ∷ times (opposite (compare_flags p.req_primary q.req_primary)) 200
    ∷ times (compare_flags p.req_grow q.req_grow) 100
    ∷ times (opposite (compare_numbers p.req_base_size q.req_base_size)) 50
    ∷ times (compare_growth p q) 25
    ∷ times (compare_mountpoints p.mountpoint q.mountpoint) 10
    ∷ []

abbrev pub sum_ℤ : List ℤ → ℤ
sum_ℤ [] = pos 0
sum_ℤ (x ∷ xs) = x +ℤ sum_ℤ xs

abbrev pub sign_of : ℤ → Sign
sign_of ret = if ltb_ℤ (pos 0) ret then more else if ltb_ℤ ret (pos 0) then less else same

abbrev pub compare_starts : Option ℕ → Option ℕ → Option Sign
compare_starts (some a) none = some less
compare_starts none (some b) = some more
compare_starts (some a) (some b) = some (compare_numbers a b)
compare_starts none none = none

abbrev pub or_weighed : Option Sign → ℤ → Sign
or_weighed (some s) ret = s
or_weighed none ret = sign_of ret

unfoldable pub partition_compare : Wish → Wish → Sign
partition_compare p q =
    or_weighed (compare_starts p.req_start_sector q.req_start_sector) (sum_ℤ (terms p q))

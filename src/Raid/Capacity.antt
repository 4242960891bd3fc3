-- ===== src/Raid/Capacity.antt =====
-- The capacity of an array against the size of its members, in blivet/devicelibs/raid.py.
use native.Mathlib.Nat.{div-lt_iff_lt-mul}
use blivet.Prelude.{
  ℕ, ◌-◌, ◌*◌, ◌+◌, ◌/◌, ◌<◌, ◌≤◌, ◌≡◌, ◌↔◌, ok, arith, pos, ◌⊎◌, inl, inr, err, raid_error, true,
  false, ltb, Bool-cases,
}
use blivet.Raid.Level.{
  Level, raid0, striped, raid4, raid5, raid6, raid10, is_raidn, min_members, raid1,
}
use blivet.Raid.Sizes.{
  div_up, base_member_size, get_base_member_size, net_array_size, get_net_array_size,
}

div_up-le : (a b k : ℕ) → 0 < b → (div_up a b ≤ k) ↔ (a ≤ k * b)
unfolding div_up
div_up-le a b k h = grind (arith, div-lt_iff_lt-mul {k = b} {x = a + (b - 1)} {y = k + 1} h)

-- A member of size `k` is as large as the one asked for exactly if the array built of members of
-- size `k` has the capacity asked for: the size asked for is the least that will do. This holds
-- wherever both calls return.
pub capacity_galois :
    (level : Level) (size n k : ℕ) {base net : ℕ}
    → get_base_member_size level (pos size) n ≡ ok base
    → get_net_array_size level n (pos k) ≡ ok net
    → (base ≤ k) ↔ (size ≤ net)
unfolding get_base_member_size get_net_array_size base_member_size net_array_size
capacity_galois raid0 size n k p q = ground (arith, div_up-le size n k)
capacity_galois striped size n k p q = ground (arith, div_up-le size n k)
capacity_galois raid4 size n k p q = ground (arith, div_up-le size (n - 1) k)
capacity_galois raid5 size n k p q = ground (arith, div_up-le size (n - 1) k)
capacity_galois raid6 size n k p q = ground (arith, div_up-le size (n - 2) k)
capacity_galois raid10 size n k p q = ground (arith, div_up-le size (n / 2) k)
capacity_galois level size n k p q = ground arith

-- With enough members, both calls return.
base_total :
    (level : Level) (size n : ℕ)
    → is_raidn level ≡ true
    → ltb n (min_members level) ≡ false
    → (base : ℕ) × (get_base_member_size level (pos size) n ≡ ok base)
unfolding get_base_member_size base_member_size
base_total raid0 size n r h = (div_up size n, ground arith)
base_total striped size n r h = (div_up size n, ground arith)
base_total raid1 size n r h = (size, ground arith)
base_total raid4 size n r h = (div_up size (n - 1), ground arith)
base_total raid5 size n r h = (div_up size (n - 1), ground arith)
base_total raid6 size n r h = (div_up size (n - 2), ground arith)
base_total raid10 size n r h = (div_up size (n / 2), ground arith)
base_total level size n r h = absurd (ground arith)

net_given :
    (level : Level) (n k : ℕ)
    → is_raidn level ≡ true
    → ltb n (min_members level) ≡ false
    → (net : ℕ) × (get_net_array_size level n (pos k) ≡ ok net)
unfolding get_net_array_size net_array_size
net_given raid0 n k r h = (k * n, ground arith)
net_given striped n k r h = (k * n, ground arith)
net_given raid1 n k r h = (k, ground arith)
net_given raid4 n k r h = (k * (n - 1), ground arith)
net_given raid5 n k r h = (k * (n - 1), ground arith)
net_given raid6 n k r h = (k * (n - 2), ground arith)
net_given raid10 n k r h = (k * (n / 2), ground arith)
net_given level n k r h = absurd (ground arith)

-- Whether a level of class RAIDn has a base size and a capacity depends only on the number of
-- members, for sizes that are not negative: below the level's least number both calls raise
-- RaidError, and from it on both give one.
pub member_count_decides :
    (level : Level) (size n k : ℕ)
    → is_raidn level ≡ true
    → ((n < min_members level)
        × (get_base_member_size level (pos size) n ≡ err raid_error)
        × (get_net_array_size level n (pos k) ≡ err raid_error))
      ⊎ ((min_members level ≤ n)
          × ((base : ℕ) × (get_base_member_size level (pos size) n ≡ ok base))
          × ((net : ℕ) × (get_net_array_size level n (pos k) ≡ ok net)))
unfolding get_base_member_size get_net_array_size base_member_size net_array_size
member_count_decides level size n k r = elim (Bool-cases (ltb n (min_members level))) [
  | inl few ↦ inl (ground arith)
  | inr enough ↦ inr (ground arith, base_total level size n r enough, net_given level n k r enough)
]

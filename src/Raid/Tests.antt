-- ===== src/Raid/Tests.antt =====
-- Arrays of three members, as blivet/devicelibs/raid.py sizes them.
use blivet.Prelude.{
  ℕ, ◌%◌, ◌≤◌, ◌≡◌, ◌↔◌, refl, ok, err, type_error, raid_error, arith, pos, negsuc, ℤ, ◌≤ℤ◌, ◌-ℤ◌,
  true, List, [], ◌∷◌, none, some, sum_of,
}
use blivet.Raid.Level.{raid1, raid5, raid6}
use blivet.Raid.Sizes.{
  Bytesize, get_base_member_size, base_member_size, get_net_array_size, net_array_size, div_up,
  trim, pad, size_of_smallest, get_size, get_space,
}
use blivet.Raid.Capacity.{capacity_galois}
use blivet.Raid.Bounds.{get_size-le-sum}
use blivet.Raid.Space.{constant, space_suffices}
use blivet.Raid.Lookup.{text, names, matches}

-- A remainder with the sign of the size.
abbrev signed_mod : ℤ → ℕ → ℤ
signed_mod (pos a) c = pos (a % c)
signed_mod (negsuc a) c = negsuc a

abbrev sizes : Bytesize
sizes = record { mod_size = signed_mod; mod_size_nonneg = λ a c h. refl }

base_1001 : get_base_member_size raid5 (pos 1001) 3 ≡ ok 501
unfolding get_base_member_size base_member_size div_up
base_1001 = refl

net_500 : get_net_array_size raid5 3 (pos 500) ≡ ok 1000
unfolding get_net_array_size net_array_size
net_500 = refl

capacity_galois_example : (501 ≤ 500) ↔ (1001 ≤ 1000)
capacity_galois_example = capacity_galois raid5 1001 3 500 base_1001 net_500

size_of_three :
    get_size sizes raid6 (1000 ∷ 2000 ∷ 3000 ∷ 4000 ∷ []) none (some 64) (some (constant 8))
    ≡ ok (pos 1920)
unfolding get_size size_of_smallest trim get_net_array_size net_array_size ◌-ℤ◌
size_of_three = refl

get_size-le-sum_example : pos 1920 ≤ℤ pos (sum_of (λ x. x) (1000 ∷ 2000 ∷ 3000 ∷ 4000 ∷ []))
get_size-le-sum_example =
    get_size-le-sum sizes (constant 8) 1000 (2000 ∷ 3000 ∷ 4000 ∷ []) 63 (omega arith) raid6
      size_of_three

-- RAID1 does not check that a superblock function is given, as the other levels do.
size_no_superblock : get_size sizes raid1 (10 ∷ 10 ∷ []) none (some 2) none ≡ err type_error
unfolding get_size
size_no_superblock = refl

size_no_superblock_raid5 :
    get_size sizes raid5 (10 ∷ 10 ∷ 10 ∷ []) none (some 2) none ≡ err raid_error
unfolding get_size
size_no_superblock_raid5 = refl

space_of_three : get_space raid5 (pos 1001) 3 (some 64) (some (constant 128)) ≡ ok (pos 1920)
unfolding get_space get_base_member_size base_member_size div_up pad
space_of_three = refl

abbrev members : List ℕ
members = 700 ∷ 640 ∷ []

space_suffices_example :
    (net : ℕ) × (get_size sizes raid5 (640 ∷ members) none (some 64) (some (constant 128))
      ≡ ok (pos net))
    × (1001 ≤ net)
space_suffices_example =
    space_suffices sizes raid5 1001 63 2 1920 640 members refl space_of_three
      (omega arith, (omega arith, (omega arith, tt)))

matches_five : matches (text "raid5") raid5 ≡ true
unfolding matches names
matches_five = refl

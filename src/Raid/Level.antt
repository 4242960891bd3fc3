-- ===== src/Raid/Level.antt =====
-- The level objects of blivet/devicelibs/raid.py and their constant properties. `raid0` and
-- `striped` share the methods of class RAID0; `linear` and `single` those of ErsatzRAID.
use blivet.Prelude.{
  ℕ, ◌-◌, ◌*◌, Bool, true, false, Option, none, some, Result, ok, err, raid_error, attribute_error,
  ℤ, pos, ◌-ℤ◌, ltb, raise_if, ◌>>◌,
}

pub data Level : Type 0 where
  raid0 striped raid1 raid4 raid5 raid6 raid10 container linear single dup : Level

abbrev pub min_members : Level → ℕ
min_members raid0 = 2
min_members striped = 2
min_members raid1 = 2
min_members raid4 = 3
min_members raid5 = 3
min_members raid6 = 4
min_members raid10 = 4
min_members container = 1
min_members linear = 1
min_members single = 1
min_members dup = 1

-- Instances of class RAIDn.
abbrev pub is_raidn : Level → Bool
is_raidn container = false
is_raidn linear = false
is_raidn single = false
is_raidn dup = false
is_raidn _ = true

-- Data is distributed uniformly over the members.
unfoldable pub is_uniform : Level → Bool
is_uniform container = false
is_uniform linear = false
is_uniform single = false
is_uniform dup = false
is_uniform _ = true

unfoldable pub has_redundancy : Level → Result Bool
has_redundancy raid0 = ok false
has_redundancy striped = ok false
has_redundancy container = err raid_error
has_redundancy linear = ok false
has_redundancy single = ok false
has_redundancy _ = ok true

-- The guard with which every public method of RAIDn begins.
abbrev pub check_members : Level → ℕ → Result (Unit {0})
check_members level member_count = raise_if (ltb member_count (min_members level)) raid_error

abbrev get_max_spares' : Level → ℕ → ℕ
get_max_spares' raid0 member_count = 0
get_max_spares' striped member_count = 0
get_max_spares' level member_count = member_count - min_members level

-- ErsatzRAID has no guard, so its number of spares may be negative.
unfoldable pub get_max_spares : Level → ℕ → Result ℤ
get_max_spares container member_count = err raid_error
get_max_spares linear member_count = ok (pos member_count -ℤ pos 1)
get_max_spares single member_count = ok (pos member_count -ℤ pos 1)
get_max_spares dup member_count = err attribute_error
get_max_spares level member_count = do
  check_members level member_count
  ok (pos (get_max_spares' level member_count))

abbrev get_recommended_stride' : Level → ℕ → Option ℕ
get_recommended_stride' raid0 member_count = some (member_count * 16)
get_recommended_stride' striped member_count = some (member_count * 16)
get_recommended_stride' raid4 member_count = some ((member_count - 1) * 16)
get_recommended_stride' raid5 member_count = some ((member_count - 1) * 16)
get_recommended_stride' level member_count = none

unfoldable pub get_recommended_stride : Level → ℕ → Result (Option ℕ)
get_recommended_stride container member_count = err raid_error
get_recommended_stride linear member_count = ok none
get_recommended_stride single member_count = ok none
get_recommended_stride dup member_count = err attribute_error
get_recommended_stride level member_count = do
  check_members level member_count
  ok (get_recommended_stride' level member_count)

-- ===== src/Placement/Tests.antt =====
-- Two partitions and a disk with three free regions, as blivet/partitioning.py treats them.
use blivet.Prelude.{ℕ, ◌≡◌, refl, true, false, ◌%◌, ◌==◌, none, some, pos, ◌+ℤ◌, ◌-ℤ◌, [], ◌∷◌}
use blivet.Placement.Compare.{Wish, less, opposite, mounted, partition_compare}
use blivet.Placement.Antisymmetry.{partition_compare-opposite}
use blivet.Placement.Disk.{
  Disk, Geometry, Alignment, Wanted, normal, get_next_partition_type, suits, best_of,
  get_best_free_space_region,
}
use blivet.Placement.Slots.{IsRoomFor, get_next_partition_type-IsRoomFor}
use blivet.Placement.Best.{IsBest, get_best_free_space_region-IsBest}

abbrev root_wish : Wish
root_wish = record {
  req_start_sector = none;
  weight = pos 0;
  req_disks = 0;
  req_primary = some false;
  req_grow = some true;
  req_base_size = 1000;
  req_max_size = 0;
  mountpoint = mounted 1;
}

abbrev boot_wish : Wish
boot_wish = record root_wish {
  req_disks = 1;
  req_grow = some false;
  req_base_size = 200;
  mountpoint = mounted 2;
}

compare_boot_root : partition_compare boot_wish root_wish ≡ less
unfolding partition_compare ◌+ℤ◌ ◌-ℤ◌
compare_boot_root = refl

partition_compare-opposite_example :
    partition_compare root_wish boot_wish ≡ opposite (partition_compare boot_wish root_wish)
partition_compare-opposite_example = partition_compare-opposite root_wish boot_wish

abbrev region : ℕ → ℕ → Geometry
region start end = record { start = start; end = end }

abbrev small_disk : Disk
small_disk = record {
  extended_geometry = some (region 5000 9999);
  supports_extended = true;
  primary_count = 3;
  max_primary_count = 4;
  max_start_sector = 4294967295;
  sector_size = 512;
  free = region 100 999 ∷ region 2000 2999 ∷ region 5000 9999 ∷ [];
}

get_next_partition_type-IsRoomFor_example :
    IsRoomFor small_disk true (get_next_partition_type small_disk true)
get_next_partition_type-IsRoomFor_example = get_next_partition_type-IsRoomFor small_disk true

abbrev every_eight : Alignment
every_eight = record { is_aligned = λ g s. (s % 8) == 0; align_up = λ g s. none }

abbrev primary : Wanted
primary = record {
  part_type = normal;
  req_size = 256000;
  start = none;
  boot = false;
  grow = true;
  efi = false;
}

largest_primary :
    get_best_free_space_region small_disk primary every_eight none ≡ some (region 2000 2999)
unfolding get_best_free_space_region best_of suits
largest_primary = refl

get_best_free_space_region-IsBest_example :
    IsBest small_disk primary every_eight small_disk.free none
      (get_best_free_space_region small_disk primary every_eight none)
get_best_free_space_region-IsBest_example =
    get_best_free_space_region-IsBest small_disk primary every_eight none refl

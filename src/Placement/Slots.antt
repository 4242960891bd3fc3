-- ===== src/Placement/Slots.antt =====
-- `get_next_partition_type` of blivet/partitioning.py proposes only what the disk has room for.
use blivet.Prelude.{suc, ◌<◌, ◌≤◌, ◌≡◌, ◌⊎◌, Bool, true, false, Option, none, some, arith}
use blivet.Placement.Disk.{
  Disk, PartitionType, normal, extended, logical, has_extended, get_next_partition_type,
}

-- When a proposal is right.
abbrev pub IsRoomFor : Disk → Bool → Option PartitionType → Type 0
IsRoomFor disk no_primary (some normal) =
    (disk.primary_count < disk.max_primary_count) × (no_primary ≡ false)
IsRoomFor disk no_primary (some extended) =
    (suc disk.primary_count ≡ disk.max_primary_count)
    × (has_extended disk ≡ false)
    × (disk.supports_extended ≡ true)
IsRoomFor disk no_primary (some logical) =
    (has_extended disk ≡ true)
    × ((disk.max_primary_count ≤ disk.primary_count) ⊎ (no_primary ≡ true))
IsRoomFor disk no_primary none =
    (has_extended disk ≡ false)
    × ((disk.max_primary_count ≤ disk.primary_count) ⊎ (no_primary ≡ true))

-- The type proposed for the next partition is primary only if a primary slot is free and primary
-- partitions are not refused; extended only for the last slot of a disk that supports an extended
-- partition and has none; logical only if there is an extended partition, and no primary can be
-- made. Nothing is proposed only if there is no extended partition and no primary can be made.
pub get_next_partition_type-IsRoomFor :
    (disk : Disk) (no_primary : Bool)
    → IsRoomFor disk no_primary (get_next_partition_type disk no_primary)
unfolding get_next_partition_type
get_next_partition_type-IsRoomFor disk no_primary = ground arith

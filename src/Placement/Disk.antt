-- ===== src/Placement/Disk.antt =====
-- `get_next_partition_type` and `get_best_free_space_region` of blivet/partitioning.py. A parted disk
-- is given by what these read of it; parted's alignment is a parameter.
use blivet.Prelude.{
  ℕ, suc, ◌+◌, ◌-◌, ◌*◌, Bool, true, false, not, ◌&&◌, ◌||◌, Option, none, some, ltb, leb, ◌==◌,
  if◌then◌else◌, List, [], ◌∷◌,
}

-- Sectors from `start` to `end`, both included.
pub record Geometry : Type 0 where
  pub start : ℕ
  pub end : ℕ

-- `parted.PARTITION_*`
pub data PartitionType : Type 0 where
  normal extended logical : PartitionType

pub record Disk : Type 0 where
  pub extended_geometry : Option Geometry
  pub supports_extended : Bool
  pub primary_count : ℕ
  pub max_primary_count : ℕ
  pub max_start_sector : ℕ
  pub sector_size : ℕ
  pub free : List Geometry

abbrev pub is_some {ℓ} : {A : Type ℓ} → Option A → Bool
is_some none = false
is_some (some a) = true

abbrev pub has_extended : Disk → Bool
has_extended disk = is_some disk.extended_geometry

-- The cases of a disk with a free primary slot.
abbrev with_free_slot : Disk → Bool → Option PartitionType
with_free_slot disk no_primary =
    if disk.primary_count == disk.max_primary_count - 1
    then (if not (has_extended disk) && disk.supports_extended
        then some extended
        else if not (has_extended disk)
        then (if not no_primary then some normal else none)
        else if not no_primary
        then some normal
        else some logical)
    else if not no_primary
    then some normal
    else if has_extended disk
    then some logical
    else none

unfoldable pub get_next_partition_type : Disk → Bool → Option PartitionType
get_next_partition_type disk no_primary =
    if ltb disk.primary_count disk.max_primary_count
    then with_free_slot disk no_primary
    else if has_extended disk
    then some logical
    else none

abbrev pub length : Geometry → ℕ
length g = suc g.end - g.start

abbrev pub byte_length : Disk → Geometry → ℕ
byte_length disk g = length g * disk.sector_size

abbrev contains_sector : Geometry → ℕ → Bool
contains_sector g s = leb g.start s && leb s g.end

abbrev contains : Geometry → Geometry → Bool
contains g h = leb g.start h.start && leb h.end g.end

-- `isAligned` and `alignUp`, which may raise ArithmeticError.
pub record Alignment : Type 0 where
  pub is_aligned : Geometry → ℕ → Bool
  pub align_up : Geometry → ℕ → Option ℕ

-- The arguments, and whether the machine boots by EFI.
pub record Wanted : Type 0 where
  pub part_type : PartitionType
  pub req_size : ℕ
  pub start : Option ℕ
  pub boot : Bool
  pub grow : Bool
  pub efi : Bool

abbrev pub is_type : PartitionType → PartitionType → Bool
is_type normal normal = true
is_type extended extended = true
is_type logical logical = true
is_type _ _ = false

-- parted may align down where it cannot align up.
abbrev aligned_at : Geometry → Option ℕ → Option Geometry
aligned_at g none = none
aligned_at g (some s) = if ltb s g.start then none else some (record g { start = s })

-- The region from its first aligned sector on, where a start is requested; one whose aligned sector
-- lies past its end has no sectors.
abbrev pub align_region : Alignment → Wanted → Geometry → Option Geometry
align_region alignment w g =
    if is_some w.start && not (alignment.is_aligned g g.start)
    then aligned_at g (alignment.align_up g g.start)
    else some g

abbrev holds_start : Option ℕ → Geometry → Bool
holds_start none g = true
holds_start (some s) g = contains_sector g s

-- A region in the extended partition is for logical partitions, and no other is.
abbrev suits_type : Option Geometry → PartitionType → Geometry → Bool
suits_type none part_type g = true
suits_type (some e) part_type g = not (
    (contains e g && is_type part_type normal) || (not (contains e g) && is_type part_type logical))

abbrev below_boot_limit : Disk → Wanted → Geometry → Bool
below_boot_limit disk w g =
    not (w.boot && not w.efi && ltb 2199023255552 (g.start * disk.sector_size + w.req_size))

-- The region passes every test of the loop.
unfoldable pub suits : Disk → Wanted → Geometry → Bool
suits disk w g =
    holds_start w.start g
    && suits_type disk.extended_geometry w.part_type g
    && leb g.start disk.max_start_sector
    && below_boot_limit disk w g
    && leb w.req_size (byte_length disk g)

-- `op(free_geom.length, best_free.length)`
abbrev pub beats : Wanted → Geometry → Geometry → Bool
beats w g best =
    if w.grow || is_type w.part_type extended
    then ltb (length best) (length g)
    else ltb (length g) (length best)

abbrev pub beats_best : Wanted → Geometry → Option Geometry → Bool
beats_best w g none = true
beats_best w g (some best) = beats w g best

-- A round of the loop: the new best, and whether the loop breaks.
abbrev pub take_region : Disk → Wanted → Option Geometry → Option Geometry → Option Geometry × Bool
take_region disk w none best = (best, false)
take_region disk w (some g) best =
    if suits disk w g && beats_best w g best then (some g, w.boot) else (best, false)

unfoldable pub best_of :
    Disk → Wanted → Alignment → List Geometry → Option Geometry → Option Geometry
best_of disk w alignment [] best = best
best_of disk w alignment (g ∷ free) best =
    let (best', breaks) = take_region disk w (align_region alignment w g) best in
    elim breaks [ true ↦ best' | false ↦ best_of disk w alignment free best' ]

unfoldable pub get_best_free_space_region :
    Disk → Wanted → Alignment → Option Geometry → Option Geometry
unfolding best_of
get_best_free_space_region disk w alignment best_free = best_of disk w alignment disk.free best_free

-- ===== src/Volumes/Sample.antt =====
-- A group of two PVs with extents of 4 bytes, a volume, and exact rounding.
use blivet.Prelude.{
  ℕ, ◌+◌, ◌-◌, ◌*◌, ◌/◌, ◌≡◌, ◌≤◌, refl, ap, false, some, none, arith, ℤ, pos, ◌==◌, if◌then◌else◌,
  [], ◌∷◌,
}
use blivet.Volumes.Space.{Rounding, PhysicalVolume, Volume, VolumeGroup}
use blivet.Volumes.Room.{Aligns}

abbrev pub down : ℤ → ℕ → ℤ
down (pos n) unit = pos (n / unit * unit)
down z unit = z

abbrev pub up : ℤ → ℕ → ℤ
up (pos n) unit = pos ((n + (unit - 1)) / unit * unit)
up z unit = z

abbrev pub percent_of : ℕ → ℤ → ℤ
percent_of p (pos n) = pos (p * n / 100)
percent_of p z = z

abbrev pub exact : Rounding
exact = record { down = down; up = up; percent_of = percent_of }

abbrev pub pv : PhysicalVolume
pv = record {
  is_md_array = false;
  pe_start = 1;
  format_exists = false;
  format_size = 0;
  size = 103;
}

abbrev pub group : VolumeGroup
group = record {
  exists = false;
  growable = false;
  pe_size = 4;
  pvs = pv ∷ pv ∷ [];
  lvs = [];
  free = λ j. if j == 1 then some 100 else if j == 2 then some 100 else none;
  snapshots = λ j. [];
  reserved_percent = 0;
  reserved_space = 0;
  thpool_reserve = none;
}

abbrev pub root : Volume
root = record {
  id = 10;
  size = 60;
  exists = false;
  is_thin_lv = false;
  is_vdo_lv = false;
  is_thin_pool = false;
  origin = none;
  pv_specs = record { pv = 1; size = 60 } ∷ [];
  cache = none;
  metadata_size = 0;
  log_size = 0;
  raid = none;
  internal = none;
  pool = none;
  min_size = 0;
  format_min_size = 0;
  format_max_size = 0;
  req_size = 60;
  req_grow = some false;
  req_max_size = 0;
  req_percent = 0;
  chunk_size = 0;
}

pub exact-Aligns : Aligns exact 4
exact-Aligns = record { up_multiple = up_multiple; down_multiple = down_multiple }
  where
    up_multiple : (n : ℕ) → (m : ℕ) × (up (pos n) 4 ≡ pos m) × (up (pos m) 4 ≡ pos m) × (n ≤ m)
    up_multiple n = ((n + 3) / 4 * 4, refl, ap pos (omega arith), omega arith)

    down_multiple : (n : ℕ) → (m : ℕ) × (down (pos n) 4 ≡ pos m) × (up (pos m) 4 ≡ pos m)
    down_multiple n = (n / 4 * 4, refl, ap pos (omega arith))

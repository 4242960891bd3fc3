-- ===== src/Volumes/Space.antt =====
-- The space of a volume group and of its logical volumes: `LVMVolumeGroupDevice` and
-- `LVMLogicalVolumeBase` of blivet/devices/lvm.py.
use blivet.Prelude.{
  ℕ, ◌+◌, ◌*◌, max, Bool, ◌&&◌, ◌||◌, not, Option, none, some, Result, ok, err, raid_error, ℤ, pos,
  ◌+ℤ◌, ◌-ℤ◌, ltb_ℤ, eqb_ℤ, ◌>>=◌, ltb, ◌==◌, if◌then◌else◌, List, [], ◌∷◌, any,
}
use blivet.Raid.Level.{Level}
use blivet.Raid.Sizes.{get_space}

-- `round_to_nearest` of a bytesize Size to a multiple of another, down and up, and a percentage of a
-- Size as a Decimal.
pub record Rounding : Type 0 where
  pub down : ℤ → ℕ → ℤ
  pub up : ℤ → ℕ → ℤ
  pub percent_of : ℕ → ℤ → ℤ

-- What is read of a PV and its format. A size of 0 stands for one that is not known.
pub record PhysicalVolume : Type 0 where
  pub is_md_array : Bool
  pub pe_start : ℕ
  pub format_exists : Bool
  pub format_size : ℕ
  pub size : ℕ

-- `LVPVSpec`: a PV, by its id, and a size.
pub record PvSpec : Type 0 where
  pub pv : ℕ
  pub size : ℕ

pub record Cache : Type 0 where
  pub size : ℕ
  pub md_size : ℕ
  pub pv_specs : List PvSpec

-- A logical volume. Where it is one of RAID: the level and the number of PVs. Where it exists and has
-- internal volumes: what their data parts and their metadata parts occupy.
pub record Volume : Type 0 where
  pub id : ℕ
  pub size : ℕ
  pub exists : Bool
  pub is_thin_lv : Bool
  pub is_vdo_lv : Bool
  pub is_thin_pool : Bool
  pub origin : Option ℕ
  pub pv_specs : List PvSpec
  pub cache : Option Cache
  pub metadata_size : ℕ
  pub log_size : ℕ
  pub raid : Option (Level × ℕ)
  pub internal : Option (ℤ × ℤ)
  -- the thin pool that it is in
  pub pool : Option ℕ
  -- its own least size, and the limits of its format
  pub min_size : ℕ
  pub format_min_size : ℕ
  pub format_max_size : ℕ
  -- what is asked for
  pub req_size : ℕ
  pub req_grow : Option Bool
  pub req_max_size : ℕ
  pub req_percent : ℕ
  -- of a thin pool
  pub chunk_size : ℕ

-- `ThPoolReserveSpec`
pub record ReserveSpec : Type 0 where
  pub percent : ℕ
  pub least : ℕ
  pub most : ℕ

-- A volume group: `free` is the attribute of the formats of its PVs, and `snapshots` that of volumes.
pub record VolumeGroup : Type 0 where
  pub exists : Bool
  pub growable : Bool
  pub pe_size : ℕ
  pub pvs : List PhysicalVolume
  pub lvs : List Volume
  pub free : ℕ → Option ℕ
  pub snapshots : ℕ → List ℕ
  pub reserved_percent : ℕ
  pub reserved_space : ℕ
  pub thpool_reserve : Option ReserveSpec

abbrev pub cache_of : Volume → Cache
cache_of lv = elim lv.cache [
  | some cache ↦ cache
  | none ↦ record { size = 0; md_size = 0; pv_specs = [] }
]

-- `get_space` of a RAID level, without superblocks; a RaidError stands for the size itself.
abbrev pub space_or : ℤ → Result ℤ → Result ℤ
space_or size (ok space) = ok space
space_or size (err raid_error) = ok size
space_or size (err e) = err e

unfoldable pub raided_size : Option (Level × ℕ) → ℤ → Result ℤ
raided_size none size = ok size
raided_size (some (level, num_raid_pvs)) size =
    space_or size (get_space level size num_raid_pvs none (some (λ _. 0)))

module _ (ops : Rounding) where
  -- `data_vg_space_used`, `metadata_vg_space_used` and `vg_space_used`: the pool of a thin volume, or of
  -- one of VDO, is accounted for in its stead.
  unfoldable pub data_vg_space_used : ℕ → Volume → Result ℤ
  unfolding raided_size
  data_vg_space_used pe_size lv = elim (if lv.exists then lv.internal else none) [
    | some (data_space, _) ↦ ok data_space
    | none ↦ raided_size lv.raid (ops.up (pos lv.size) pe_size) >>= λ size.
        ok (size +ℤ pos (cache_of lv).size)
  ]

  unfoldable pub metadata_vg_space_used : Volume → Result ℤ
  unfolding raided_size
  metadata_vg_space_used lv = elim (if lv.exists then lv.internal else none) [
    | some (_, metadata_space) ↦ ok metadata_space
    | none ↦
        let base = pos (lv.metadata_size + lv.log_size) in
        (if eqb_ℤ base (pos 0) then ok base else raided_size lv.raid base) >>= λ size.
        ok (size +ℤ pos (cache_of lv).md_size)
  ]

  unfoldable pub vg_space_used : ℕ → Volume → Result ℤ
  unfolding data_vg_space_used metadata_vg_space_used
  vg_space_used pe_size lv = if lv.is_thin_lv || lv.is_vdo_lv then ok (pos 0) else (do
    data_space ← data_vg_space_used pe_size lv
    metadata_space ← metadata_vg_space_used lv
    ok (data_space +ℤ metadata_space))

  -- `_get_pv_metadata_space` and `_get_pv_usable_space`
  abbrev pub pv_metadata_space : PhysicalVolume → ℕ
  pv_metadata_space pv = if pv.is_md_array then 2 * pv.pe_start else pv.pe_start

  unfoldable pub pv_usable_space : VolumeGroup → PhysicalVolume → ℤ
  pv_usable_space vg pv =
      if pv.format_exists && not (pv.format_size == 0)
      then (if vg.exists
          then pos pv.format_size
          else ops.down (pos pv.format_size -ℤ pos (pv_metadata_space pv)) vg.pe_size)
      else ops.down (pos pv.size -ℤ pos (pv_metadata_space pv)) vg.pe_size

  abbrev sum_usable : VolumeGroup → List PhysicalVolume → ℤ
  sum_usable vg [] = pos 0
  sum_usable vg (pv ∷ pvs) = pv_usable_space vg pv +ℤ sum_usable vg pvs

  -- `size`
  unfoldable pub vg_size : VolumeGroup → ℤ
  unfolding pv_usable_space
  vg_size vg = sum_usable vg vg.pvs

  -- `pmspare_size`: the largest metadata size
  unfoldable pub pmspare_size : List Volume → ℕ
  pmspare_size [] = 0
  pmspare_size (lv ∷ lvs) = max (max lv.metadata_size (cache_of lv).md_size) (pmspare_size lvs)

  abbrev clamp : ReserveSpec → ℤ → ℤ
  clamp spec size =
      let least = if ltb_ℤ size (pos spec.least) then pos spec.least else size in
      if ltb_ℤ (pos spec.most) least then pos spec.most else least

  -- `reserved_space`
  unfoldable pub reserved_space : VolumeGroup → ℤ
  unfolding vg_size pmspare_size
  reserved_space vg =
      let size = vg_size vg in
      let own =
        if ltb 0 vg.reserved_percent
        then ops.percent_of vg.reserved_percent size
        else pos vg.reserved_space in
      let pool : ℤ = elim vg.thpool_reserve [
        | none ↦ pos 0
        | some spec ↦
            if any (λ lv. lv.is_thin_pool) vg.lvs
            then clamp spec (ops.percent_of spec.percent size)
            else pos 0
      ] in
      ops.up (own +ℤ pool +ℤ pos (pmspare_size vg.lvs)) vg.pe_size

  unfoldable pub used_space : ℕ → List Volume → Result ℤ
  unfolding vg_space_used
  used_space pe_size [] = ok (pos 0)
  used_space pe_size (lv ∷ lvs) = do
    used ← vg_space_used pe_size lv
    rest ← used_space pe_size lvs
    ok (used +ℤ rest)

  -- `free_space`
  unfoldable pub free_space : VolumeGroup → Result ℤ
  unfolding vg_size used_space reserved_space
  free_space vg = do
    used ← used_space vg.pe_size vg.lvs
    ok (vg_size vg -ℤ (used +ℤ reserved_space vg))

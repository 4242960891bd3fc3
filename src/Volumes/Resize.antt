-- ===== src/Volumes/Resize.antt =====
-- The setter of the size of a volume, in `LVMLogicalVolumeDevice`, `LVMThinLogicalVolumeMixin` and
-- `StorageDevice`: blivet/devices/lvm.py and blivet/devices/storage.py.
use blivet.Prelude.{
  ℕ, ◌&&◌, ◌||◌, not, Result, ok, ◌>>=◌, ◌>>◌, raise_if, device_error, ℤ, pos, pos_part, ◌+ℤ◌,
  ltb_ℤ, ltb, is_true, ◌==◌, if◌then◌else◌, List, [], ◌∷◌,
}
use blivet.Volumes.Space.{Rounding, Volume, VolumeGroup, free_space, vg_space_used}

-- The volume of an id, changed in place.
abbrev pub change_volume : (Volume → Volume) → ℕ → List Volume → List Volume
change_volume f id [] = []
change_volume f id (x ∷ xs) = if x.id == id then f x ∷ xs else x ∷ change_volume f id xs

abbrev pub change_in : (Volume → Volume) → VolumeGroup → Volume → VolumeGroup
change_in f vg lv = record vg { lvs = change_volume f lv.id vg.lvs }

-- An aligned size is not negative.
abbrev pub with_size : ℤ → Volume → Volume
with_size size lv = record lv { size = pos_part size }

-- `StorageDevice._set_size`: the limits of the format count for a device that does not exist.
unfoldable pub check_limits : Volume → ℤ → Result (Unit {0})
check_limits lv newsize = do
  raise_if (not lv.exists && ltb 0 lv.format_max_size && ltb_ℤ (pos lv.format_max_size) newsize)
      device_error
  raise_if (not lv.exists && ltb 0 lv.format_min_size && ltb_ℤ newsize (pos lv.format_min_size))
      device_error
  ok tt

module _ (ops : Rounding) where
  -- `growable` of the volume: its own wish, or that of its group.
  abbrev pub aligned : VolumeGroup → Volume → ℕ → ℤ
  aligned vg lv newsize =
      if is_true lv.req_grow || vg.growable
      then ops.up (pos newsize) vg.pe_size
      else ops.down (pos newsize) vg.pe_size

  -- The space is checked only if a volume that does not exist becomes larger.
  abbrev pub check_room : VolumeGroup → Volume → ℤ → Result (Unit {0})
  check_room vg lv newsize =
      if not lv.exists && ltb_ℤ (pos lv.size) newsize
      then (do
        free ← free_space ops vg
        used ← vg_space_used ops vg.pe_size lv
        raise_if (ltb_ℤ (free +ℤ used) newsize) device_error
        ok tt)
      else ok tt

  -- `_set_size`, of a volume that is not one of VDO.
  unfoldable pub set_size : VolumeGroup → Volume → ℕ → Result VolumeGroup
  unfolding free_space vg_space_used check_limits
  set_size vg lv newsize =
      if lv.is_thin_lv
      then (do
        let size = ops.down (ops.down (pos newsize) vg.pe_size) vg.pe_size
        check_limits lv size
        ok (change_in (with_size size) vg lv))
      else do
        check_room vg lv (aligned vg lv newsize)
        check_limits lv (aligned vg lv newsize)
        ok (change_in (with_size (aligned vg lv newsize)) vg lv)

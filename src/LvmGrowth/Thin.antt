-- ===== src/LvmGrowth/Thin.antt =====
-- The parts of `grow_lvm` of blivet/partitioning.py that concern thin pools and their volumes, with
-- `autoset_md_size` of blivet/devices/lvm.py and `recommend_thpool_chunk_size` of
-- blivet/devicelibs/lvm.py.
use blivet.Prelude.{
  ℕ, ◌+◌, ◌*◌, ◌/◌, false, ◌&&◌, ◌||◌, not, Result, ok, ◌>>=◌, ◌>>◌, raise_if, value_error,
  partitioning_error, ℤ, pos, pos_part, ◌+ℤ◌, ◌-ℤ◌, ltb_ℤ, eqb_ℤ, ltb, ◌==◌, if◌then◌else◌, List,
  [], ◌∷◌, keep, min,
}
use blivet.Volumes.Space.{Rounding, Volume, VolumeGroup, free_space, pmspare_size}
use blivet.Volumes.Resize.{set_size, change_in}
use blivet.Growth.Grow.{Quotients, grow_requests}
use blivet.LvmGrowth.Compare.{sort_lvs}
use blivet.LvmGrowth.Request.{lv_requests, thin_pool_chunk}
use blivet.LvmGrowth.Grow.{
  ids, for_each, fat_lvs, pool_lvs, pool_used_space, percentage_based, sum_of_percents, set_both,
  set_pool_base, set_percentages, apply_growth, grow_regular,
}

-- 64 KiB for each 17455015526400 bytes begun, and 1 GiB at most.
unfoldable pub recommend_thpool_chunk_size : ℕ → ℕ
recommend_thpool_chunk_size thpool_size =
    min ((thpool_size + 17455015526399) / 17455015526400 * 65536) 1073741824

abbrev set_metadata_size : ℕ → Volume → Volume
set_metadata_size n lv = record lv { metadata_size = n }

abbrev set_chunk_size : ℕ → Volume → Volume
set_chunk_size n lv = record lv { chunk_size = n }

-- `get_thpool_meta_size` of libblockdev, for 100 snapshots: the size of the metadata, by the sizes of a
-- pool and of its chunks.
module _ (ops : Rounding) (thpool_meta_size : ℕ → ℕ → ℕ) where
  abbrev pub pool_chunk_size : Volume → ℕ
  pool_chunk_size pool =
      if pool.chunk_size == 0 then recommend_thpool_chunk_size pool.size else pool.chunk_size

  abbrev pub pool_metadata_size : VolumeGroup → Volume → ℕ
  pool_metadata_size vg pool =
      pos_part (ops.up (pos (thpool_meta_size pool.size (pool_chunk_size pool))) vg.pe_size)

  -- The pool and its group once the chunk size and the metadata size are set.
  abbrev pub with_metadata : VolumeGroup → Volume → Volume
  with_metadata vg pool =
      set_metadata_size (pool_metadata_size vg pool) (set_chunk_size (pool_chunk_size pool) pool)

  abbrev pub group_with_metadata : VolumeGroup → Volume → VolumeGroup
  group_with_metadata vg pool = change_in (λ _. with_metadata vg pool) vg pool

  -- `autoset_md_size`, not enforced. The pool is larger than its metadata; where it is not, the size of the
  -- model ends at 0.
  unfoldable pub autoset_md_size : VolumeGroup → Volume → Result VolumeGroup
  unfolding recommend_thpool_chunk_size set_size pmspare_size
  autoset_md_size vg pool =
      if not (pool.metadata_size == 0) || (pool.size == 0)
      then ok vg
      else if pool_metadata_size vg pool == 0
      then ok (group_with_metadata vg pool)
      else set_size ops (group_with_metadata vg pool) (with_metadata vg pool) (
          pos_part (
            pos pool.size
            -ℤ pos (pool_metadata_size vg pool)
            -ℤ (pos (pmspare_size ops (group_with_metadata vg pool).lvs)
                -ℤ pos (pmspare_size ops vg.lvs))))

  -- What the change of the largest metadata size costs the pool.
  abbrev pub trade_spare : ℕ → VolumeGroup → Volume → Result VolumeGroup
  trade_spare orig_pmspare_size vg pool =
      let spare = pmspare_size ops vg.lvs in
      if spare == orig_pmspare_size
      then ok vg
      else set_size ops vg pool (pos_part (pos pool.size -ℤ (pos spare -ℤ pos orig_pmspare_size)))

  -- The body of the loop that sets the metadata size of pools.
  unfoldable pub settle_metadata : VolumeGroup → Volume → Result VolumeGroup
  unfolding autoset_md_size for_each
  settle_metadata vg pool = do
    let orig_pmspare_size = pmspare_size ops vg.lvs
    vg' ← if not pool.exists && (pool.metadata_size == 0) then autoset_md_size vg pool else ok vg
    for_each (trade_spare orig_pmspare_size) (pool.id ∷ []) vg'

  -- The percentage-based volumes of a pool.
  abbrev thin_percent_base : VolumeGroup → List Volume → ℤ
  thin_percent_base vg [] = pos 0
  thin_percent_base vg (lv ∷ lvs) = ops.up (pos lv.req_size) vg.pe_size +ℤ thin_percent_base vg lvs

  unfoldable pub set_thin_percentages : VolumeGroup → Volume → Result VolumeGroup
  unfolding pool_used_space set_size for_each
  set_thin_percentages vg pool = do
    let lvs = percentage_based ops (pool_lvs vg pool)
    raise_if (ltb 100 (sum_of_percents ops (pool_lvs vg pool))) value_error
    let percentage_basis =
        pos pool.size -ℤ pool_used_space ops vg (pool_lvs vg pool) +ℤ thin_percent_base vg lvs
    for_each
        (λ vg' lv. set_both ops vg' lv (pos_part (ops.percent_of lv.req_percent percentage_basis)))
        (ids lvs) vg

module _ (ops : Rounding) (quotients : Quotients) (passes : ℕ) where
  -- The volumes of a thin pool.
  unfoldable pub grow_thin : VolumeGroup → Volume → Result VolumeGroup
  unfolding sort_lvs lv_requests thin_pool_chunk grow_requests apply_growth
  grow_thin vg pool = do
    requests ← lv_requests ops vg (sort_lvs (pool_lvs vg pool))
    chunk ← thin_pool_chunk ops vg pool requests
    grown ← grow_requests quotients false passes chunk
    apply_growth ops grown.requests vg

  abbrev pub thin_pools : VolumeGroup → List ℕ
  thin_pools vg = ids (keep (λ (v : Volume). v.is_thin_pool) vg.lvs)

  -- The body of the loop of `grow_lvm` over the groups.
  unfoldable pub grow_vg : (ℕ → ℕ → ℕ) → VolumeGroup → Result VolumeGroup
  unfolding free_space for_each set_pool_base set_percentages grow_regular settle_metadata
      set_thin_percentages grow_thin
  grow_vg thpool_meta_size vg = do
    total_free ← free_space ops vg
    raise_if (ltb_ℤ total_free (pos 0)) partitioning_error
    if eqb_ℤ total_free (pos 0) then ok vg else do
      based ← for_each (set_pool_base ops) (ids (fat_lvs vg)) vg
      fixed ← set_percentages ops based
      grown ← grow_regular ops quotients passes fixed
      settled ← for_each (settle_metadata ops thpool_meta_size) (thin_pools vg) grown
      percents ← for_each (set_thin_percentages ops thpool_meta_size) (thin_pools vg) settled
      for_each grow_thin (thin_pools vg) percents

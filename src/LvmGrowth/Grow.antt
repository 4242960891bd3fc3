-- ===== src/LvmGrowth/Grow.antt =====
-- The parts of `grow_lvm` of blivet/partitioning.py that concern the regular volumes of a group. A loop over
-- volumes takes their ids, since the volumes change.
use blivet.Prelude.{
  ℕ, ◌*◌, Bool, false, not, Option, none, some, Result, ok, ◌>>=◌, ◌>>◌, raise_if, value_error, ℤ,
  pos, pos_part, ◌+ℤ◌, ltb, ◌==◌, if◌then◌else◌, List, [], ◌∷◌, keep, map, max, sum_of,
}
use blivet.Volumes.Space.{Rounding, Volume, VolumeGroup, free_space}
use blivet.Volumes.Resize.{set_size, change_in}
use blivet.Growth.Chunk.{Request}
use blivet.Growth.Grow.{Quotients, grow_requests}
use blivet.LvmGrowth.Compare.{sort_lvs}
use blivet.LvmGrowth.Request.{to_extents, lv_requests, vg_chunk}

abbrev pub find_volume : ℕ → List Volume → Option Volume
find_volume id [] = none
find_volume id (x ∷ xs) = let rest = find_volume id xs in if x.id == id then some x else rest

abbrev pub ids : List Volume → List ℕ
ids lvs = map (λ (v : Volume). v.id) lvs

-- `for lv in lvs`, where a volume of the list is one of the group.
abbrev pub with_volume :
    (VolumeGroup → Volume → Result VolumeGroup) → VolumeGroup → Option Volume → Result VolumeGroup
with_volume body vg none = ok vg
with_volume body vg (some lv) = body vg lv

unfoldable pub for_each :
    (VolumeGroup → Volume → Result VolumeGroup) → List ℕ → VolumeGroup → Result VolumeGroup
for_each body [] vg = ok vg
for_each body (id ∷ rest) vg = do
  vg' ← with_volume body vg (find_volume id vg.lvs)
  for_each body rest vg'

-- `fatlvs`
abbrev pub fat_lvs : VolumeGroup → List Volume
fat_lvs vg = keep (λ (v : Volume). not v.is_thin_lv) vg.lvs

-- The `lvs` of a thin pool.
abbrev pub in_pool : Volume → Volume → Bool
in_pool pool lv = elim lv.pool [ none ↦ false | some id ↦ id == pool.id ]

abbrev pub pool_lvs : VolumeGroup → Volume → List Volume
pool_lvs vg pool = keep (in_pool pool) vg.lvs

abbrev set_req_size : ℕ → Volume → Volume
set_req_size n lv = record lv { req_size = n }

module _ (ops : Rounding) where
  -- `used_space` of a thin pool
  unfoldable pub pool_used_space : VolumeGroup → List Volume → ℤ
  pool_used_space vg [] = pos 0
  pool_used_space vg (lv ∷ lvs) = ops.up (pos lv.size) vg.pe_size +ℤ pool_used_space vg lvs

  -- The base size of a thin pool is at least the sum of those of its volumes.
  unfoldable pub set_pool_base : VolumeGroup → Volume → Result VolumeGroup
  unfolding pool_used_space set_size
  set_pool_base vg lv =
      let wanted =
        max (max lv.min_size lv.req_size) (pos_part (pool_used_space vg (pool_lvs vg lv))) in
      if lv.is_thin_pool
      then set_size ops (change_in (set_req_size wanted) vg lv) (set_req_size wanted lv) wanted
      else ok vg

  -- The percentage-based requests of a list, their percentages and extents.
  abbrev pub percentage_based : List Volume → List Volume
  percentage_based lvs = keep (λ (v : Volume). ltb 0 v.req_percent) lvs

  abbrev pub sum_of_percents : List Volume → ℕ
  sum_of_percents lvs = sum_of (λ (v : Volume). v.req_percent) (percentage_based lvs)

  abbrev percent_base : VolumeGroup → List Volume → ℤ
  percent_base vg [] = pos 0
  percent_base vg (lv ∷ lvs) =
      to_extents (ops.down (pos lv.req_size) vg.pe_size) vg.pe_size +ℤ percent_base vg lvs

  -- The size is set before `req_size`; neither is negative.
  abbrev pub set_both : VolumeGroup → Volume → ℕ → Result VolumeGroup
  set_both vg lv size = do vg' ← set_size ops vg lv size; ok (change_in (set_req_size size) vg' lv)

  unfoldable pub set_percentages : VolumeGroup → Result VolumeGroup
  unfolding set_size free_space for_each
  set_percentages vg = do
    raise_if (ltb 100 (sum_of_percents (fat_lvs vg))) value_error
    free ← free_space ops vg
    let percentage_basis =
        to_extents free vg.pe_size +ℤ percent_base vg (percentage_based (fat_lvs vg))
    for_each
        (λ vg' lv.
          set_both vg' lv (vg'.pe_size * pos_part (ops.percent_of lv.req_percent percentage_basis)))
        (ids (percentage_based (fat_lvs vg))) vg

  -- `_apply_chunk_growth`; no request has shrunk.
  abbrev pub grown_size : ℕ → Request → ℕ
  grown_size pe_size req = pe_size * pos_part (pos req.base +ℤ req.growth)

  unfoldable pub apply_growth : List Request → VolumeGroup → Result VolumeGroup
  unfolding set_size
  apply_growth [] vg = ok vg
  apply_growth (req ∷ reqs) vg = do
    vg' ←
        if req.growable
        then with_volume (λ g lv. set_size ops g lv (grown_size g.pe_size req)) vg
            (find_volume req.id vg.lvs)
        else ok vg
    apply_growth reqs vg'

module _ (ops : Rounding) (quotients : Quotients) (passes : ℕ) where
  -- The regular volumes of a group: a chunk for them, its growth, and their new sizes. The requests are
  -- sorted as they are made.
  unfoldable pub grow_regular : VolumeGroup → Result VolumeGroup
  unfolding sort_lvs lv_requests vg_chunk grow_requests apply_growth
  grow_regular vg = do
    requests ← lv_requests ops vg (sort_lvs (fat_lvs vg))
    chunk ← vg_chunk ops vg requests
    grown ← grow_requests quotients false passes chunk
    apply_growth ops grown.requests vg

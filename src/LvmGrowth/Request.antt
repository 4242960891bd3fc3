-- ===== src/LvmGrowth/Request.antt =====
-- `LVRequest`, `VGChunk` and `ThinPoolChunk` of blivet/partitioning.py: requests and chunks in extents.
use blivet.Prelude.{
  ℕ, suc, ◌+◌, ◌/◌, Bool, false, ◌||◌, not, Option, none, some, Result, ok, ◌>>=◌, ℤ, pos, negsuc,
  pos_part, ◌-ℤ◌, leb_ℤ, ltb, is_true, if◌then◌else◌, List, [], ◌∷◌, ◌++◌,
}
use blivet.Volumes.Space.{
  Rounding, Volume, VolumeGroup, vg_size, reserved_space, metadata_vg_space_used,
}
use blivet.Growth.Chunk.{Request, Chunk, plain, min_of, add_requests}

-- `int(size / pe_size)`
abbrev pub to_extents : ℤ → ℕ → ℤ
to_extents (pos n) pe_size = pos (n / pe_size)
to_extents (negsuc n) pe_size = pos 0 -ℤ pos (suc n / pe_size)

-- The same of a size that is not negative.
abbrev pub extents_of : ℤ → ℕ → ℕ
extents_of size pe_size = pos_part (to_extents size pe_size)

-- The largest growth, and whether nothing is left to grow.
abbrev lv_limited : ℕ → Option ℕ → ℤ × Bool
lv_limited base none = (pos 0, false)
lv_limited base (some max_units) =
    let max_growth = pos max_units -ℤ pos base in (max_growth, leb_ℤ max_growth (pos 0))

module _ (ops : Rounding) (vg : VolumeGroup) where
  abbrev limit_of : Volume → Option ℕ
  limit_of lv =
      let req_max = pos_part (ops.down (pos lv.req_max_size) vg.pe_size) in
      let format_max = pos_part (ops.down (pos lv.format_max_size) vg.pe_size) in
      if is_true lv.req_grow
      then min_of (
          (if ltb 0 req_max then req_max / vg.pe_size ∷ [] else [])
          ++ (if ltb 0 format_max then format_max / vg.pe_size ∷ [] else []))
      else none

  -- `reserve_request`
  abbrev cache_extents : Volume → ℕ
  cache_extents lv = elim lv.cache [
    | none ↦ 0
    | some cache ↦ extents_of (ops.up (pos cache.size) vg.pe_size) vg.pe_size
  ]

  unfoldable pub lv_request : Volume → Result Request
  unfolding metadata_vg_space_used
  lv_request lv = do
    metadata_space ← metadata_vg_space_used ops lv
    let base = extents_of (ops.up (pos lv.size) vg.pe_size) vg.pe_size
    let limit = lv_limited base (limit_of lv)
    ok (record {
      id = lv.id;
      growable = is_true lv.req_grow;
      base = base;
      reserve_request = cache_extents lv + extents_of (ops.up metadata_space vg.pe_size) vg.pe_size;
      growth = pos 0;
      max_growth = limit.0;
      done = not (is_true lv.req_grow) || limit.1;
      start = 0;
      end = 0;
      max_start_sector = 0;
      req_bootable = false;
    })

  unfoldable pub lv_requests : List Volume → Result (List Request)
  unfolding lv_request
  lv_requests [] = ok []
  lv_requests (lv ∷ lvs) = do
    request ← lv_request lv
    requests ← lv_requests lvs
    ok (request ∷ requests)

  -- The length of a chunk is its pool before requests are added, and may be negative; it is only shown.
  abbrev chunk_of : ℤ → List Request → Result Chunk
  chunk_of usable requests =
      add_requests
        (record {
          region = plain;
          length = pos_part usable;
          pool = usable;
          base = pos 0;
          requests = [];
          skip_list = [];
        })
        requests

  unfoldable pub vg_chunk : List Request → Result Chunk
  unfolding add_requests vg_size reserved_space
  vg_chunk requests =
      chunk_of
        (to_extents (vg_size ops vg) vg.pe_size
          -ℤ to_extents (ops.up (reserved_space ops vg) vg.pe_size) vg.pe_size)
        requests

  -- The size of a thin pool is a multiple of that of the extents.
  unfoldable pub thin_pool_chunk : Volume → List Request → Result Chunk
  unfolding add_requests
  thin_pool_chunk pool requests = chunk_of (to_extents (pos pool.size) vg.pe_size) requests

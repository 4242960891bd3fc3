-- ===== src/Growth/Grow.antt =====
-- `reclaim`, `trim_over_grown_request` and `grow_requests` of class Chunk in blivet/partitioning.py.
-- The requests that a pass has seen stand before the one at hand, with their growth changed.
use blivet.Prelude.{
  ℕ, zero, suc, Bool, true, ◌&&◌, ◌||◌, not, Result, ok, ◌>>=◌, ◌>>◌, raise_if, value_error, ℤ, pos,
  ◌+ℤ◌, ◌-ℤ◌, ltb_ℤ, leb_ℤ, eqb_ℤ, leb, ◌==◌, if◌then◌else◌, List, [], ◌∷◌, ◌++◌, length, keep, any,
}
use blivet.Growth.Chunk.{Request, Chunk, Region, plain, disk, max_growth}

-- `int(Decimal(base) / Decimal(total) * pool)`, which raises if the total is zero, and
-- `int(pool / remaining)`.
pub record Quotients : Type 0 where
  pub share : ℤ → ℤ → ℤ → Result ℤ
  pub portion : ℤ → ℕ → ℤ

abbrev pub is_skipped : List ℕ → Request → Bool
is_skipped skip_list r = any (λ i. i == r.id) skip_list

-- `Chunk.reclaim` of a request, the others being `before` and `after`.
unfoldable pub reclaim : Chunk → List Request → Request → List Request → ℤ → Result Chunk
reclaim c before r after amount = do
  raise_if (ltb_ℤ r.growth amount) value_error
  ok (record c {
    requests = before ++ record r { growth = r.growth -ℤ amount } ∷ after;
    pool = c.pool +ℤ amount;
    skip_list = if is_skipped c.skip_list r then c.skip_list else c.skip_list ++ r.id ∷ [];
  })

-- `Chunk.remaining` and `Chunk.done`
abbrev pub remaining : List Request → ℕ
remaining requests = length (keep (λ r. not r.done) requests)

abbrev pub is_done : List Request → ℤ → Bool
is_done requests pool = remaining requests == 0 || eqb_ℤ pool (pos 0)

pub record Trimmed : Type 0 where
  pub request : Request
  pub pool : ℤ
  pub base : ℤ

-- `trim_over_grown_request`, given the largest growth that `max_growth` allows.
abbrev pub trim_to : ℤ → Request → ℤ → ℤ → Trimmed
trim_to limit r pool base =
    if not (eqb_ℤ limit (pos 0)) && leb_ℤ limit r.growth
    then record {
      request = record r { growth = limit; done = true };
      pool = pool +ℤ (r.growth -ℤ limit);
      base = base -ℤ pos r.base;
    }
    else record { request = r; pool = pool; base = base }

unfoldable pub trim_over_grown_request :
    Region → List Request → Request → List Request → ℤ → ℤ → Trimmed
trim_over_grown_request region before r after pool base =
    trim_to (max_growth region (before ++ r ∷ after) r) r pool base

-- A request receives units from the pool, and is trimmed.
unfoldable pub grow_request : Region → List Request → Request → List Request → ℤ → ℤ → ℤ → Trimmed
unfolding trim_over_grown_request
grow_request region before r after growth pool base =
    trim_over_grown_request region before (record r { growth = r.growth +ℤ growth }) after
      (pool -ℤ growth) base

module _ (ops : Quotients) (uniform : Bool) (region : Region) (skip_list : List ℕ) where
  -- The growth of a request in a pass: `total` is the base of the chunk, `last_pool` its pool.
  abbrev pub growth_of : ℕ → ℤ → ℤ → Request → Result ℤ
  growth_of open_requests total last_pool r =
      if uniform
      then ok (ops.portion last_pool open_requests)
      else ops.share (pos r.base) total last_pool

  -- The `for` loop of a pass. It gives the requests, the pool and the new base.
  unfoldable pub grow_each :
      ℕ → ℤ → ℤ → List Request → List Request → ℤ → ℤ → Result (List Request × ℤ × ℤ)
  grow_each n total last_pool before [] pool base = ok (before, pool, base)
  grow_each n total last_pool before (r ∷ after) pool base =
      if r.done || is_skipped skip_list r
      then grow_each n total last_pool (before ++ r ∷ []) after pool base
      else do
        growth ← growth_of n total last_pool r
        let t = grow_request region before r after growth pool base
        grow_each n total last_pool (before ++ t.request ∷ []) after t.pool t.base

  -- What the leftover of the pool goes to: the first request that can still grow, and the next, if
  -- some was put back.
  unfoldable pub grow_leftover : List Request → List Request → ℤ → List Request × ℤ
  grow_leftover before [] pool = (before, pool)
  grow_leftover before (r ∷ after) pool =
      if r.done || is_skipped skip_list r
      then grow_leftover (before ++ r ∷ []) after pool
      else (let t = grow_request region before r after pool pool (pos 0) in
          if eqb_ℤ t.pool (pos 0)
          then (before ++ t.request ∷ after, t.pool)
          else grow_leftover (before ++ t.request ∷ []) after t.pool)

-- The `while` loop, for a number of passes at most. The first pool that a pass compares with is 0.
unfoldable pub grow_passes : Quotients → Bool → ℕ → Chunk → ℤ → ℤ → Result Chunk
grow_passes ops uniform zero c last_pool new_base = ok c
grow_passes ops uniform (suc passes) c last_pool new_base =
    if is_done c.requests c.pool || eqb_ℤ last_pool c.pool then ok c else do
      (requests, pool, base) ←
          grow_each ops uniform c.region c.skip_list (remaining c.requests) new_base c.pool []
            c.requests c.pool new_base
      grow_passes ops uniform passes
          (record c { requests = requests; pool = pool; base = new_base }) c.pool base

-- A stable sort by the start sector, for a disk.
abbrev pub insert_request : Request → List Request → List Request
insert_request r [] = r ∷ []
insert_request r (x ∷ xs) = if leb r.start x.start then r ∷ x ∷ xs else x ∷ insert_request r xs

abbrev pub sorted_requests : List Request → List Request
sorted_requests [] = []
sorted_requests (r ∷ rs) = insert_request r (sorted_requests rs)

unfoldable pub sort_requests : Region → List Request → List Request
sort_requests plain requests = requests
sort_requests (disk start end sector_size) requests = sorted_requests requests

-- The end of `grow_requests`, after its passes.
unfoldable pub finish : Quotients → Bool → Chunk → Chunk
finish ops uniform c =
    let (requests, pool) =
      if eqb_ℤ c.pool (pos 0)
      then (c.requests, c.pool)
      else grow_leftover ops uniform c.region c.skip_list [] c.requests c.pool in
    record c { requests = requests; pool = pool; skip_list = [] }

-- `grow_requests`, with a number of passes at most.
unfoldable pub grow_requests : Quotients → Bool → ℕ → Chunk → Result Chunk
unfolding finish
grow_requests ops uniform passes c = do
  let sorted = record c { requests = sort_requests c.region c.requests }
  grown ← grow_passes ops uniform passes sorted (pos 0) c.base
  ok (finish ops uniform grown)

-- ===== src/Growth/Chunk.antt =====
-- `Request`, `PartitionRequest`, `Chunk` and `DiskChunk` of blivet/partitioning.py. Quotients that
-- Python computes with `Decimal` or with floats are a parameter: `Quotients`.
use blivet.Prelude.{
  ℕ, ◌+◌, ◌-◌, ◌/◌, Bool, ◌||◌, not, Option, none, some, Result, ok, ◌>>=◌, ◌>>◌, raise_if,
  partitioning_error, ℤ, pos, ◌+ℤ◌, ◌-ℤ◌, leb_ℤ, eqb_ℤ, leb, ltb, if◌then◌else◌, List, [], ◌∷◌,
  ◌++◌, length, keep, min,
}

-- A request with the device that it is for, whose id it has. The geometry is that of the parted
-- partition, and counts in a disk's chunk only.
pub record Request : Type 0 where
  pub id : ℕ
  pub growable : Bool
  pub base : ℕ
  pub reserve_request : ℕ
  pub growth : ℤ
  pub max_growth : ℤ
  pub done : Bool
  pub start : ℕ
  pub end : ℕ
  pub max_start_sector : ℕ
  pub req_bootable : Bool

-- The sizes that a partition asks for, in bytes, and the limit of its disk.
pub record Partition : Type 0 where
  pub id : ℕ
  pub req_grow : Bool
  pub start : ℕ
  pub length : ℕ
  pub req_max_size : ℕ
  pub format_max_size : ℕ
  pub sector_size : ℕ
  pub max_partition_length : ℕ
  pub max_start_sector : ℕ
  pub req_bootable : Bool

-- `size_to_sectors`
abbrev pub size_to_sectors : ℕ → ℕ → ℕ
size_to_sectors size sector_size = size / sector_size

abbrev pub min_of : List ℕ → Option ℕ
min_of [] = none
min_of (x ∷ xs) = elim (min_of xs) [ none ↦ some x | some m ↦ some (min x m) ]

abbrev or_zero : Option ℕ → ℕ
or_zero none = 0
or_zero (some n) = n

-- The least limit in sectors, of those that are positive.
unfoldable pub max_sectors : Partition → Option ℕ
max_sectors p =
    let size = or_zero (min_of (keep (ltb 0) (p.req_max_size ∷ p.format_max_size ∷ []))) in
    min_of (keep (ltb 0) (size_to_sectors size p.sector_size ∷ p.max_partition_length ∷ []))

-- `PartitionRequest.__init__`
abbrev limited : Partition → Option ℕ → ℤ × Bool
limited p none = (pos 0, not p.req_grow)
limited p (some m) =
    let max_growth = pos m -ℤ pos p.length in
    (max_growth, not p.req_grow || leb_ℤ max_growth (pos 0))

unfoldable pub partition_request : Partition → Request
partition_request p =
    let limit = if p.req_grow then limited p (max_sectors p) else limited p none in
    record {
      id = p.id;
      growable = p.req_grow;
      base = p.length;
      reserve_request = 0;
      growth = pos 0;
      max_growth = limit.0;
      done = limit.1;
      start = p.start;
      end = p.start + p.length - 1;
      max_start_sector = p.max_start_sector;
      req_bootable = p.req_bootable;
    }

-- The class of a chunk. A disk's chunk has the geometry of its free region.
pub data Region : Type 0 where
  plain : Region
  disk : (start end sector_size : ℕ) → Region

pub record Chunk : Type 0 where
  pub region : Region
  pub length : ℕ
  pub pool : ℤ
  pub base : ℤ
  pub requests : List Request
  pub skip_list : List ℕ

-- `Chunk.__init__`, before it adds the requests.
abbrev pub empty_chunk : Region → ℕ → Chunk
empty_chunk region length = record {
  region = region;
  length = length;
  pool = pos length;
  base = pos 0;
  requests = [];
  skip_list = [];
}

-- `Chunk.add_request`
abbrev add_plain : Chunk → Request → Chunk
add_plain c req = record c {
  requests = c.requests ++ req ∷ [];
  pool = c.pool -ℤ pos req.base -ℤ pos req.reserve_request;
  base = if req.done then c.base else c.base +ℤ pos req.base;
}

-- What `DiskChunk.add_request` does first: with the first request, the pool is cut to what the
-- disklabel can address.
abbrev adjust_pool : ℕ → ℕ → Chunk → Request → Result Chunk
adjust_pool start end c req =
    let chunk_end = min req.max_start_sector end in
    do
      raise_if (leb chunk_end start) partitioning_error
      ok (record c { pool = pos (chunk_end - start + 1) })

-- `self.requests` is empty only as the first request is added.
abbrev before_add : Region → List Request → Chunk → Request → Result Chunk
before_add (disk start end sector_size) [] c req = adjust_pool start end c req
before_add region requests c req = ok c

unfoldable pub add_request : Chunk → Request → Result Chunk
add_request c req = do c' ← before_add c.region c.requests c req; ok (add_plain c' req)

unfoldable pub add_requests : Chunk → List Request → Result Chunk
unfolding add_request
add_requests c [] = ok c
add_requests c (req ∷ reqs) = do c' ← add_request c req; add_requests c' reqs

-- The growth of the requests that lie before a sector.
abbrev pub growth_before : ℕ → List Request → ℤ
growth_before sector [] = pos 0
growth_before sector (r ∷ rs) =
    let rest = growth_before sector rs in if ltb r.start sector then r.growth +ℤ rest else rest

abbrev pub min_ℤ : ℤ → ℤ → ℤ
min_ℤ a b = if leb_ℤ a b then a else b

-- `DiskChunk.max_growth`, for a request of those that the chunk has.
abbrev pub disk_max_growth : ℕ → List Request → Request → ℤ
disk_max_growth sector_size requests req =
    let req_end = pos req.end +ℤ growth_before req.start requests in
    let label = pos req.max_start_sector -ℤ req_end in
    let boot =
      if req.req_bootable
      then min_ℤ label (pos (size_to_sectors 2199023255552 sector_size) -ℤ req_end)
      else label in
    if eqb_ℤ req.max_growth (pos 0) then boot else min_ℤ boot req.max_growth

unfoldable pub max_growth : Region → List Request → Request → ℤ
max_growth plain requests req = req.max_growth
max_growth (disk start end sector_size) requests req = disk_max_growth sector_size requests req

-- ===== src/Growth/Sets.antt =====
-- `TotalSizeSet`, `SameSizeSet` and `manage_size_sets` of blivet/partitioning.py. A device is known by its id,
-- which its request has, and a chunk by its place in the list.
use blivet.Prelude.{
  ℕ, zero, suc, ◌/◌, true, Option, none, some, Result, ok, err, ◌>>=◌, key_error, ℤ, pos, negsuc,
  ◌+ℤ◌, ◌*ℤ◌, leb_ℤ, ◌==◌, if◌then◌else◌, List, [], ◌∷◌, ◌++◌, length, map, sum_of,
}
use blivet.Growth.Chunk.{Request, Chunk, Region, plain, disk}
use blivet.Growth.Grow.{reclaim}

-- The devices of a set, by their ids. A `SameSizeSet` has the size of each.
pub data SizeSet : Type 0 where
  total_size : (devices : List ℕ) (size allocated : ℤ) → SizeSet
  same_size : (devices : List ℕ) (size : ℤ) → SizeSet

-- `TotalSizeSet.__init__`, given the base sizes that the devices ask for.
abbrev pub init_total_size : List (ℕ × ℕ) → ℤ → SizeSet
init_total_size devices size =
    total_size (map (λ (d : ℕ × ℕ). d.0) devices) size (pos (sum_of (λ (d : ℕ × ℕ). d.1) devices))

-- `length_to_size`, and `size_to_length` by the quotient of two Sizes.
abbrev pub length_to_size : Region → ℤ → ℤ
length_to_size plain length = length
length_to_size (disk start end sector_size) length = length *ℤ pos sector_size

abbrev pub size_to_length : (ℤ → ℕ → ℤ) → Region → ℤ → ℤ
size_to_length quotient plain size = size
size_to_length quotient (disk start end sector_size) size = quotient size sector_size

-- `//` of integers
abbrev pub floor_div : ℤ → ℕ → ℤ
floor_div (pos n) d = pos (n / d)
floor_div (negsuc n) d = negsuc (n / d)

abbrev pub max_ℤ : ℤ → ℤ → ℤ
max_ℤ a b = if leb_ℤ a b then b else a

-- The request of a device, between those before it and after it.
abbrev pub split_request :
    ℕ → List Request → List Request → Option (List Request × Request × List Request)
split_request id before [] = none
split_request id before (r ∷ after) =
    let rest = split_request id (before ++ r ∷ []) after in
    if r.id == id then some (before, r, after) else rest

-- `chunks_by_request[requests_by_device[device]]`, with the place of the chunk and the request.
abbrev pub locate : ℕ → ℕ → List Chunk → Option (ℕ × Chunk × Request)
locate id place [] = none
locate id place (c ∷ cs) = elim (split_request id [] c.requests) [
  | none ↦ locate id (suc place) cs
  | some (before, r, after) ↦ some (place, c, r)
]

abbrev pub found {ℓ} : {A : Type ℓ} → Option A → Result A
found none = err key_error
found (some a) = ok a

-- `chunk.reclaim(request, extra)` of the request of a device.
abbrev pub reclaim_in : Chunk → Option (List Request × Request × List Request) → ℤ → Result Chunk
reclaim_in c none amount = err key_error
reclaim_in c (some (before, r, after)) amount = reclaim c before r after amount

unfoldable pub reclaim_from : ℕ → ℕ → ℤ → List Chunk → Result (List Chunk)
unfolding reclaim
reclaim_from id place amount [] = err key_error
reclaim_from id zero amount (c ∷ cs) = do
  c' ← reclaim_in c (split_request id [] c.requests) amount
  ok (c' ∷ cs)
reclaim_from id (suc place) amount (c ∷ cs) = do cs' ← reclaim_from id place amount cs; ok (c ∷ cs')

-- `request.done = True`
abbrev pub close_request : ℕ → List Request → List Request
close_request id [] = []
close_request id (r ∷ rs) =
    (if r.id == id then record r { done = true } else r) ∷ close_request id rs

abbrev pub close : ℕ → List Chunk → List Chunk
close id [] = []
close id (c ∷ cs) = record c { requests = close_request id c.requests } ∷ close id cs

-- The chunks, and the units reclaimed from each, as a round changes them.
pub record Round : Type 0 where
  pub chunks : List Chunk
  pub reclaimed : ℕ → ℤ

abbrev pub add_reclaimed : Round → ℕ → ℤ → ℕ → ℤ
add_reclaimed s place extra j = if j == place then s.reclaimed j +ℤ extra else s.reclaimed j

-- The requests by their growth, the largest first.
abbrev pub insert_by_growth : ℕ × ℤ → List (ℕ × ℤ) → List (ℕ × ℤ)
insert_by_growth x [] = x ∷ []
insert_by_growth x (y ∷ ys) = if leb_ℤ y.1 x.1 then x ∷ y ∷ ys else y ∷ insert_by_growth x ys

abbrev pub by_growth : List (ℕ × ℤ) → List (ℕ × ℤ)
by_growth [] = []
by_growth (x ∷ xs) = insert_by_growth x (by_growth xs)

unfoldable pub growths : List ℕ → List Chunk → Result (List (ℕ × ℤ))
growths [] chunks = ok []
growths (d ∷ ds) chunks = do
  (place, c, r) ← found (locate d 0 chunks)
  rest ← growths ds chunks
  ok ((d, r.growth) ∷ rest)

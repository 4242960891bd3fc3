-- ===== src/Growth/Tests.antt =====
-- Requests that grow in one chunk, as blivet/partitioning.py shares it out.
use blivet.Prelude.{
  ◌==◌, if◌then◌else◌, ℕ, ◌+◌, ◌≡◌, refl, true, false, ok, arith, ℤ, pos, ◌+ℤ◌, ◌-ℤ◌, ◌≤ℤ◌, List,
  [], ◌∷◌, inl, inr,
}
use blivet.Growth.Chunk.{Request, Chunk, plain, disk, empty_chunk, add_request, add_requests}
use blivet.Growth.Grow.{
  reclaim, grow_request, grow_requests, grow_passes, grow_each, grow_leftover, finish,
  trim_over_grown_request, sort_requests,
}
use blivet.Growth.Chunk.{max_growth}
use blivet.Growth.Passes.{grow_requests-enough}
use blivet.Growth.Overdraw.{grow_requests-fits}
use blivet.Growth.Conserve.{committed, total, grow_requests-total}
use blivet.Growth.Limit.{AllWithin, grow_requests-AllWithin}
use blivet.Growth.Room.{end_of, boot_limit, grow_request-beyond_limit}
use blivet.Growth.Sample.{exact, exact-RoundsDown}
use blivet.Growth.Sets.{
  SizeSet, Round, total_size, same_size, init_total_size, reclaim_from, growths,
}
use blivet.Growth.Share.{
  allocate_new, trim_one, trim_each, level_one, level_each, manage_set, manage_each, grow_again,
  manage_round, manage_size_sets,
}
use blivet.Growth.Kept.{totals}
use blivet.Growth.Completes.{manage_each-completes}
use blivet.Growth.Share.{manage_each}
use blivet.Growth.Balanced.{manage_size_sets-totals}

abbrev request : ℕ → ℕ → ℤ → Request
request id base max_growth = record {
  id = id;
  growable = true;
  base = base;
  reserve_request = 0;
  growth = pos 0;
  max_growth = max_growth;
  done = false;
  start = 2048;
  end = 2048 + base;
  max_start_sector = 4294967296;
  req_bootable = false;
}

abbrev two_requests : List Request
two_requests = request 1 100 (pos 50) ∷ request 2 300 (pos 0) ∷ []

-- 1000 units with the two requests.
abbrev chunk : Chunk
chunk = record {
  region = plain;
  length = 1000;
  pool = pos 600;
  base = pos 400;
  requests = two_requests;
  skip_list = [];
}

add_two : add_requests (empty_chunk plain 1000) two_requests ≡ ok chunk
unfolding add_requests add_request ◌+ℤ◌ ◌-ℤ◌
add_two = refl

-- The first request stops at its limit, and the second receives the rest.
abbrev grown : Chunk
grown = record chunk {
  pool = pos 0;
  base = pos 300;
  requests =
      record (request 1 100 (pos 50)) { growth = pos 50; done = true }
      ∷ record (request 2 300 (pos 0)) { growth = pos 550 }
      ∷ [];
}

grow_two : grow_requests exact false 10 chunk ≡ ok grown
unfolding grow_requests grow_passes grow_each grow_leftover finish grow_request
    trim_over_grown_request sort_requests max_growth ◌+ℤ◌ ◌-ℤ◌
grow_two = refl

grow_requests-total_example : total grown ≡ total chunk
grow_requests-total_example = grow_requests-total exact false 10 chunk grow_two

grow_requests-AllWithin_example : AllWithin grown.requests
grow_requests-AllWithin_example =
    grow_requests-AllWithin exact false 10 chunk refl (inr (omega arith), (inl refl, tt)) grow_two

abbrev first_grown : Request
first_grown = record (request 1 100 (pos 50)) { growth = pos 50; done = true }

abbrev second_grown : Request
second_grown = record (request 2 300 (pos 0)) { growth = pos 550 }

-- A bootable partition that ends at 2 TiB on a disk of sectors of 512 bytes.
abbrev boot : Request
boot = record (request 3 4294965248 (pos 0)) { req_bootable = true; max_start_sector = 8589934592 }

grow_request-beyond_limit_example :
    let t = grow_request (disk 2048 8589934592 512) [] boot [] (pos 100) (pos 100) (pos 0) in
    end_of [] t.request [] ≡ pos (boot_limit 512 + 100)
grow_request-beyond_limit_example =
    grow_request-beyond_limit 2048 8589934592 512 [] [] boot 99 (pos 100) (pos 0) refl refl refl
      (unfold ◌+ℤ◌ in refl) (omega arith)

grow_requests-enough_example :
    grow_requests exact false 601 chunk ≡ grow_requests exact false 1000 chunk
grow_requests-enough_example =
    grow_requests-enough exact false chunk 600 400 601 1000 exact-RoundsDown refl refl refl
      (inr (0, 50, refl, refl, inr (omega arith)), (inr (0, 0, refl, refl, inl refl), tt))
      (omega arith) (omega arith) (omega arith)

grow_requests-fits_example : committed grown.requests ≤ℤ total chunk
grow_requests-fits_example =
    grow_requests-fits exact false chunk 600 400 10 exact-RoundsDown refl refl refl
      (inr (0, 50, refl, refl, inr (omega arith)), (inr (0, 0, refl, refl, inl refl), tt))
      (omega arith) grow_two

-- The two grown requests are to have 700 units together, but are left with 725: each gives back a share of
-- what is too much, and the first has less than its share.
abbrev sets : List SizeSet
sets = init_total_size ((1, 100) ∷ (2, 300) ∷ []) (pos 700) ∷ []

abbrev trimmed : Chunk
trimmed = record grown {
  pool = pos 275;
  requests =
      record first_grown { growth = pos 0 }
      ∷ record second_grown { growth = pos 325; done = true }
      ∷ [];
  skip_list = 2 ∷ 1 ∷ [];
}

trim_two : manage_size_sets (λ size d. size) exact 10 sets (grown ∷ []) ≡ ok (trimmed ∷ [])
unfolding manage_size_sets manage_round manage_each manage_set allocate_new growths trim_each
    trim_one reclaim_from reclaim grow_again grow_requests grow_passes grow_each grow_leftover
    finish grow_request trim_over_grown_request sort_requests max_growth ◌+ℤ◌ ◌-ℤ◌
trim_two = refl

manage_size_sets-totals_example : totals (trimmed ∷ []) ≡ totals (grown ∷ [])
manage_size_sets-totals_example =
    manage_size_sets-totals (λ size d. size) exact 10 sets (grown ∷ []) trim_two

abbrev first_round : Round
first_round = record { chunks = grown ∷ []; reclaimed = λ j. pos 0 }

-- Two devices of the same size: the second gives back what it has grown more than the first.
level_two :
    manage_set (λ size d. size) true (λ id. pos 0) (same_size (1 ∷ 2 ∷ []) (pos 500)) first_round
    ≡ ok (
      record {
        chunks =
            record grown {
              pool = pos 500;
              requests = first_grown ∷ record second_grown { growth = pos 50; done = true } ∷ [];
              skip_list = 2 ∷ [];
            }
            ∷ [];
        reclaimed = λ j. if j == 0 then pos 500 else pos 0;
      },
      same_size (1 ∷ 2 ∷ []) (pos 500),
    )
unfolding manage_set growths level_each level_one reclaim_from reclaim ◌+ℤ◌ ◌-ℤ◌
level_two = refl

-- The requests have 700 units together and 500 each.
abbrev both_sets : List SizeSet
both_sets = total_size (1 ∷ 2 ∷ []) (pos 700) (pos 400) ∷ same_size (2 ∷ 1 ∷ []) (pos 500) ∷ []

manage_each-completes_example :
    (s' : Round) × (sets' : List SizeSet) × (manage_each
        (λ size d. size)
        true
        (λ id. pos 0)
        both_sets
        first_round
      ≡ ok (s', sets'))
    × (totals s'.chunks ≡ totals (grown ∷ []))
manage_each-completes_example =
    manage_each-completes (λ size d. size) true (λ id. pos 0) both_sets first_round
      ((refl, (refl, tt)), (((refl, (refl, tt)), λ empty. cc), tt))

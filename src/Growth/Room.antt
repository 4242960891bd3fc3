-- ===== src/Growth/Room.antt =====
-- `DiskChunk.max_growth` of blivet/partitioning.py where a partition has no room left, and `reclaim`.
use blivet.Prelude.{
  ℕ, suc, ◌+◌, ◌≤◌, ◌≡◌, pos-sub, refl, true, ok, err, value_error, arith, int_laws, ℤ, pos, ◌+ℤ◌,
  ◌-ℤ◌, ◌<ℤ◌, ltb_ℤ, if◌then◌else◌, List, [], ◌∷◌, ◌++◌, Bool-cases, inl, inr, ◌⊎◌,
}
use blivet.Growth.Chunk.{Request, Chunk, disk, max_growth, growth_before, size_to_sectors}
use blivet.Growth.Grow.{trim_over_grown_request, grow_request, reclaim, is_skipped}
use blivet.Growth.Conserve.{committed, used, total}

-- A request does not lie before itself.
growth_before_self :
    (before after : List Request) (r x : Request)
    → r.start ≡ x.start
    → growth_before r.start (before ++ x ∷ after) ≡ growth_before r.start (before ++ r ∷ after)
growth_before_self [] after r x e = ground arith
growth_before_self (y ∷ before) after r x e = rw (growth_before_self before after r x e)

-- The end of a partition in a disk's chunk, with the growth of those before it and its own.
abbrev pub end_of : List Request → Request → List Request → ℤ
end_of before r after = pos r.end +ℤ growth_before r.start (before ++ r ∷ after) +ℤ r.growth

-- 2 TiB in sectors.
abbrev pub boot_limit : ℕ → ℕ
boot_limit sector_size = size_to_sectors 2199023255552 sector_size

no_room :
    (start end sector_size : ℕ) (before after : List Request) (r : Request)
    → r.req_bootable ≡ true
    → r.max_growth ≡ pos 0
    → pos r.end +ℤ growth_before r.start (before ++ r ∷ after) ≡ pos (boot_limit sector_size)
    → boot_limit sector_size ≤ r.max_start_sector
    → max_growth (disk start end sector_size) (before ++ r ∷ after) r ≡ pos 0
unfolding max_growth
no_room start end sector_size before after r boot free full label =
    rw (full, boot, free)
      (rw
        (
          pos-sub r.max_start_sector (boot_limit sector_size) label,
          pos-sub (boot_limit sector_size) (boot_limit sector_size) (omega arith),
        )
        (ground arith))

-- A bootable partition whose end, with the growth of those before it, is the sector at 2 TiB,
-- which has not grown, and which no other limit stops, is not held there: the largest growth
-- computed for it is 0, which stands for no limit. It receives all that it is given, and ends
-- beyond 2 TiB.
pub grow_request-beyond_limit :
    (start end sector_size : ℕ) (before after : List Request) (r : Request) (n : ℕ) (pool base : ℤ)
    → r.req_bootable ≡ true
    → r.max_growth ≡ pos 0
    → r.growth ≡ pos 0
    → end_of before r after ≡ pos (boot_limit sector_size)
    → boot_limit sector_size ≤ r.max_start_sector
    → let t = grow_request (disk start end sector_size) before r after (pos (suc n)) pool base in
      end_of before t.request after ≡ pos (boot_limit sector_size + suc n)
unfolding grow_request trim_over_grown_request
grow_request-beyond_limit start end sector_size before after r n pool base boot free fresh full
      label =
    let grown = record r { growth = r.growth +ℤ pos (suc n) } in
    let same = growth_before_self before after r grown refl in
    let at_end : pos r.end +ℤ growth_before r.start (before ++ r ∷ after)
        ≡ pos (boot_limit sector_size) =
      grind (int_laws, full, fresh) in
    let stuck = no_room start end sector_size before after grown boot free (rw same at_end) label in
    rw (stuck, same) (grind (int_laws, at_end, fresh))

committed-replace :
    (before after : List Request) (r x : Request) (amount : ℤ)
    → used x +ℤ amount ≡ used r
    → committed (before ++ x ∷ after) +ℤ amount ≡ committed (before ++ r ∷ after)
committed-replace [] after r x amount e = grind (int_laws, e)
committed-replace (y ∷ before) after r x amount e =
    grind (int_laws, committed-replace before after r x amount e)

-- Reclaiming units of a request raises ValueError if it has grown by fewer; otherwise the units go
-- to the pool, and none is lost or made.
pub reclaim-total :
    (c : Chunk) (before after : List Request) (r : Request) (amount : ℤ)
    → c.requests ≡ before ++ r ∷ after
    → ((r.growth <ℤ amount) × (reclaim c before r after amount ≡ err value_error))
      ⊎ ((c' : Chunk) × (reclaim c before r after amount ≡ ok c')
          × (c'.pool ≡ c.pool +ℤ amount)
          × (total c' ≡ total c))
unfolding reclaim
reclaim-total c before after r amount e = elim (Bool-cases (ltb_ℤ r.growth amount)) [
  | inl fewer ↦ inl (ground arith, rw fewer)
  | inr enough ↦
      let less = record r { growth = r.growth -ℤ amount } in
      let kept : used less +ℤ amount ≡ used r = grind int_laws in
      let left = record c {
        requests = before ++ less ∷ after;
        pool = c.pool +ℤ amount;
        skip_list = if is_skipped c.skip_list r then c.skip_list else c.skip_list ++ r.id ∷ [];
      } in
      inr (
        left,
        rw enough,
        refl,
        rw e (grind (int_laws, committed-replace before after r less amount kept)),
      )
]

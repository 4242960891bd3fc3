-- ===== src/Growth/Share.antt =====
-- `manage_size_sets` of blivet/partitioning.py: its two rounds over the sets.
use blivet.Prelude.{
  ℕ, suc, Bool, true, false, ◌&&◌, not, none, some, Result, ok, err, ◌>>=◌, value_error, ℤ, pos,
  ◌+ℤ◌, ◌-ℤ◌, ltb_ℤ, leb_ℤ, eqb_ℤ, if◌then◌else◌, List, [], ◌∷◌, length, map,
}
use blivet.Growth.Chunk.{Request, Chunk, min_ℤ}
use blivet.Growth.Grow.{Quotients, is_done, grow_requests}
use blivet.Growth.Sets.{
  SizeSet, total_size, same_size, Round, length_to_size, size_to_length, floor_div, max_ℤ, locate,
  found, reclaim_from, close, add_reclaimed, by_growth, growths,
}

-- The growth that a request had at the end of the last round, by its id.
abbrev pub Growths : Type 0
Growths = ℕ → ℤ

-- `reclaimed[chunk] += extra; chunk.reclaim(request, extra)`
abbrev pub take_back : Round → ℕ → ℕ → ℤ → Result Round
take_back s id place extra = do
  chunks ← reclaim_from id place extra s.chunks
  ok (record { chunks = chunks; reclaimed = add_reclaimed s place extra })

abbrev pub close_in : Round → ℕ → Round
close_in s id = record s { chunks = close id s.chunks }

-- `if ss.needed <= 0: request.done = True`
abbrev pub close_if_met : ℤ → Round → ℕ → Round
close_if_met needed s id = if leb_ℤ needed (pos 0) then close_in s id else s

module _ (quotient : ℤ → ℕ → ℤ) where
  -- The growth of the devices of a `TotalSizeSet` since the last round is added to `allocated`.
  unfoldable pub allocate_new : Growths → List Chunk → List ℕ → ℤ → Result ℤ
  allocate_new previous chunks [] allocated = ok allocated
  allocate_new previous chunks (d ∷ ds) allocated = do
    (place, c, r) ← found (locate d 0 chunks)
    allocate_new previous chunks ds
        (allocated +ℤ length_to_size c.region (r.growth -ℤ previous r.id))

  -- The body of the loop of a `TotalSizeSet`: `first` is `i == 0`, `needed` that before the loop.
  unfoldable pub trim_one :
      Bool → ℕ → ℤ → ℤ → ℕ → ℕ → Chunk → Request → Round → ℤ → Result (Round × ℤ)
  unfolding reclaim_from
  trim_one first n size needed d place c r s allocated =
      let extra = floor_div (pos 0 -ℤ size_to_length quotient c.region needed) n in
      if not (ltb_ℤ (size -ℤ allocated) (pos 0))
      then ok (close_if_met (size -ℤ allocated) s d, allocated)
      else if ltb_ℤ r.growth extra && first
      then ok (s, allocated)
      else do
        taken ← take_back s d place (min_ℤ extra r.growth)
        let rest = allocated -ℤ length_to_size c.region (min_ℤ extra r.growth)
        ok (close_if_met (size -ℤ rest) taken d, rest)

  unfoldable pub trim_each : Bool → ℕ → ℤ → ℤ → List ℕ → Round → ℤ → Result (Round × ℤ)
  unfolding trim_one
  trim_each first n size needed [] s allocated = ok (s, allocated)
  trim_each first n size needed (d ∷ ds) s allocated = do
    (place, c, r) ← found (locate d 0 s.chunks)
    (s', left) ← trim_one first n size needed d place c r s allocated
    trim_each first n size needed ds s' left

  -- The body of the loop of a `SameSizeSet`, given the least growth of its requests.
  unfoldable pub level_one : ℤ → ℤ → ℕ → ℕ → Chunk → Request → Round → Result Round
  unfolding reclaim_from
  level_one size least d place c r s =
      let most = size_to_length quotient c.region size -ℤ pos r.base in
      let min_growth = max_ℤ (min_ℤ least most) (pos 0) in
      if ltb_ℤ min_growth r.growth
      then (do taken ← take_back s d place (r.growth -ℤ min_growth); ok (close_in taken d))
      else if eqb_ℤ r.growth min_growth
      then ok (close_in s d)
      else ok s

  unfoldable pub level_each : ℤ → ℤ → List ℕ → Round → Result Round
  unfolding level_one
  level_each size least [] s = ok s
  level_each size least (d ∷ ds) s = do
    (place, c, r) ← found (locate d 0 s.chunks)
    s' ← level_one size least d place c r s
    level_each size least ds s'

  abbrev pub least_growth : List (ℕ × ℤ) → Result ℤ
  least_growth [] = err value_error
  least_growth (x ∷ []) = ok x.1
  least_growth (x ∷ y ∷ ys) = least_growth (y ∷ ys) >>= λ least. ok (min_ℤ x.1 least)

  unfoldable pub manage_set : Bool → Growths → SizeSet → Round → Result (Round × SizeSet)
  unfolding allocate_new growths trim_each level_each
  manage_set first previous (total_size devices size allocated) s = do
    now ← allocate_new previous s.chunks devices allocated
    grown ← growths devices s.chunks
    (s', left) ←
        trim_each first (length devices) size (size -ℤ now)
          (map (λ (x : ℕ × ℤ). x.0) (by_growth grown)) s now
    ok (s', total_size devices size left)
  manage_set first previous (same_size devices size) s = do
    grown ← growths devices s.chunks
    least ← least_growth grown
    s' ← level_each size least devices s
    ok (s', same_size devices size)

  unfoldable pub manage_each : Bool → Growths → List SizeSet → Round → Result (Round × List SizeSet)
  unfolding manage_set
  manage_each first previous [] s = ok (s, [])
  manage_each first previous (ss ∷ sets) s = do
    (s', ss') ← manage_set first previous ss s
    (s'', sets') ← manage_each first previous sets s'
    ok (s'', ss' ∷ sets')

  -- Chunks from which units were reclaimed grow again.
  unfoldable pub grow_again : Quotients → ℕ → ℕ → (ℕ → ℤ) → List Chunk → Result (List Chunk)
  unfolding grow_requests
  grow_again ops passes place reclaimed [] = ok []
  grow_again ops passes place reclaimed (c ∷ cs) = do
    c' ←
        if not (eqb_ℤ (reclaimed place) (pos 0)) && not (is_done c.requests c.pool)
        then grow_requests ops false passes c
        else ok c
    cs' ← grow_again ops passes (suc place) reclaimed cs
    ok (c' ∷ cs')

  abbrev pub growth_of_device : List Chunk → Growths
  growth_of_device chunks id = elim (locate id 0 chunks) [
    | none ↦ pos 0
    | some (place, c, r) ↦ r.growth
  ]

  unfoldable pub manage_round :
      Quotients
      → ℕ
      → Bool
      → Growths
      → List SizeSet
      → List Chunk
      → Result (List Chunk × List SizeSet × Growths)
  unfolding manage_each grow_again
  manage_round ops passes first previous sets chunks = do
    (s, sets') ←
        manage_each first previous sets (record { chunks = chunks; reclaimed = λ j. pos 0 })
    chunks' ← grow_again ops passes 0 s.reclaimed s.chunks
    ok (chunks', sets', growth_of_device s.chunks)

  unfoldable pub manage_size_sets : Quotients → ℕ → List SizeSet → List Chunk → Result (List Chunk)
  unfolding manage_round
  manage_size_sets ops passes sets chunks = do
    (once, sets', previous) ← manage_round ops passes true (λ id. pos 0) sets chunks
    (twice, _, _) ← manage_round ops passes false previous sets' once
    ok twice

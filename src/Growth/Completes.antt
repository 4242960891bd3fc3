-- ===== src/Growth/Completes.antt =====
-- `manage_size_sets` of blivet/partitioning.py: a round over the sets ends without an error, where the chunks
-- have a request of every device.
use blivet.Prelude.{
  ℕ, ◌≡◌, refl, sym, ◌∙◌, subst, Bool, true, Bool-cases, inl, inr, leb_ℤ, ok, ℤ, ◌-ℤ◌, ◌+ℤ◌, List,
  [], ◌∷◌, map, any, elem, length,
}
use blivet.Growth.Chunk.{Chunk, min_ℤ}
use blivet.Growth.Sets.{
  SizeSet, total_size, same_size, Round, length_to_size, growths, by_growth, insert_by_growth,
}
use blivet.Growth.Share.{
  Growths, allocate_new, trim_each, level_each, least_growth, manage_set, manage_each,
}
use blivet.Growth.Kept.{totals}
use blivet.Growth.Managed.{manage_each-totals}
use blivet.Growth.Known.{device_ids, locate-Known}
use blivet.Growth.Returns.{trim_one-Returns, level_one-Returns}

-- Every device has a request in one of the chunks, given by the ids of their requests.
abbrev pub AllKnown : List ℕ → List (List ℕ) → Type 0
AllKnown [] ids = Unit
AllKnown (d ∷ ds) ids = (any (elem d) ids ≡ true) × AllKnown ds ids

-- A set that a round can manage: its devices have requests, and one of equal sizes has a device.
abbrev pub Manageable : List (List ℕ) → SizeSet → Type 0
Manageable ids (total_size devices size allocated) = AllKnown devices ids
Manageable ids (same_size devices size) = AllKnown devices ids × ¬ (devices ≡ [])

abbrev pub AllManageable : List (List ℕ) → List SizeSet → Type 0
AllManageable ids [] = Unit
AllManageable ids (ss ∷ sets) = Manageable ids ss × AllManageable ids sets

abbrev devices_of : List (ℕ × ℤ) → List ℕ
devices_of xs = map (λ (x : ℕ × ℤ). x.0) xs

-- `growths` lists the devices it is given.
growths-devices :
    (ds : List ℕ) (cs : List Chunk)
    → AllKnown ds (device_ids cs)
    → (grown : List (ℕ × ℤ)) × (growths ds cs ≡ ok grown) × (devices_of grown ≡ ds)
unfolding growths
growths-devices [] cs h = ([], refl, refl)
growths-devices (d ∷ ds) cs (h, hs) =
    let ((place, c, r), e) = locate-Known d 0 cs h in
    let (rest, es, same) = growths-devices ds cs hs in
    ((d, r.growth) ∷ rest, rw (e, es) refl, λ i. d ∷ same i)

insert_by_growth-AllKnown :
    (x : ℕ × ℤ) (xs : List (ℕ × ℤ)) (ids : List (List ℕ))
    → any (elem x.0) ids ≡ true
    → AllKnown (devices_of xs) ids
    → AllKnown (devices_of (insert_by_growth x xs)) ids
insert_by_growth-AllKnown x [] ids h hs = (h, hs)
insert_by_growth-AllKnown x (y ∷ ys) ids h (first, hs) = elim (Bool-cases (leb_ℤ y.1 x.1)) [
  | inl larger ↦ rw larger (h, (first, hs))
  | inr smaller ↦ rw smaller (first, insert_by_growth-AllKnown x ys ids h hs)
]

by_growth-AllKnown :
    (xs : List (ℕ × ℤ)) (ids : List (List ℕ))
    → AllKnown (devices_of xs) ids
    → AllKnown (devices_of (by_growth xs)) ids
by_growth-AllKnown [] ids h = h
by_growth-AllKnown (x ∷ xs) ids (h, hs) =
    insert_by_growth-AllKnown x (by_growth xs) ids h (by_growth-AllKnown xs ids hs)

module _ (quotient : ℤ → ℕ → ℤ) where
  allocate_new-returns :
      (previous : Growths) (cs : List Chunk) (ds : List ℕ) (allocated : ℤ)
      → AllKnown ds (device_ids cs)
      → (now : ℤ) × (allocate_new quotient previous cs ds allocated ≡ ok now)
  unfolding allocate_new
  allocate_new-returns previous cs [] allocated h = (allocated, refl)
  allocate_new-returns previous cs (d ∷ ds) allocated (h, hs) =
      let ((place, c, r), e) = locate-Known d 0 cs h in
      let (now, rest) =
        allocate_new-returns previous cs ds
          (allocated +ℤ length_to_size c.region (r.growth -ℤ previous r.id)) hs in
      (now, rw e rest)

  least_growth-returns :
      (xs : List (ℕ × ℤ))
      → ¬ (devices_of xs ≡ [])
      → (least : ℤ) × (least_growth quotient xs ≡ ok least)
  least_growth-returns [] h = elim (h refl) [ ]
  least_growth-returns (x ∷ []) h = (x.1, refl)
  least_growth-returns (x ∷ y ∷ ys) h =
      let (least, e) = least_growth-returns (y ∷ ys) (λ empty. cc) in (min_ℤ x.1 least, rw e refl)

  trim_each-returns :
      (first : Bool) (n : ℕ) (size needed : ℤ) (ds : List ℕ) (s : Round) (allocated : ℤ)
      → AllKnown ds (device_ids s.chunks)
      → (s' : Round) × (left : ℤ) × (trim_each quotient first n size needed ds s allocated
          ≡ ok (s', left))
        × (device_ids s'.chunks ≡ device_ids s.chunks)
  unfolding trim_each
  trim_each-returns first n size needed [] s allocated h = (s, allocated, refl, refl)
  trim_each-returns first n size needed (d ∷ ds) s allocated (h, hs) =
      let ((place, c, r), e) = locate-Known d 0 s.chunks h in
      let (s1, left1, one, same1) =
        trim_one-Returns quotient first n size needed d place c r s allocated e in
      let (s2, left2, rest, same2) =
        trim_each-returns first n size needed ds s1 left1 (subst (AllKnown ds) (sym same1) hs) in
      (s2, left2, rw (e, one) rest, same2 ∙ same1)

  level_each-returns :
      (size least : ℤ) (ds : List ℕ) (s : Round)
      → AllKnown ds (device_ids s.chunks)
      → (s' : Round) × (level_each quotient size least ds s ≡ ok s')
        × (device_ids s'.chunks ≡ device_ids s.chunks)
  unfolding level_each
  level_each-returns size least [] s h = (s, refl, refl)
  level_each-returns size least (d ∷ ds) s (h, hs) =
      let ((place, c, r), e) = locate-Known d 0 s.chunks h in
      let (s1, one, same1) = level_one-Returns quotient size least d place c r s e in
      let (s2, rest, same2) =
        level_each-returns size least ds s1 (subst (AllKnown ds) (sym same1) hs) in
      (s2, rw (e, one) rest, same2 ∙ same1)

  manage_set-returns :
      (first : Bool) (previous : Growths) (ss : SizeSet) (s : Round)
      → Manageable (device_ids s.chunks) ss
      → (s' : Round) × (ss' : SizeSet) × (manage_set quotient first previous ss s ≡ ok (s', ss'))
        × (device_ids s'.chunks ≡ device_ids s.chunks)
  unfolding manage_set
  manage_set-returns first previous (total_size devices size allocated) s h =
      let (now, added) = allocate_new-returns previous s.chunks devices allocated h in
      let (grown, listed, same) = growths-devices devices s.chunks h in
      let ids = device_ids s.chunks in
      let known = by_growth-AllKnown grown ids (subst (λ ds. AllKnown ds ids) (sym same) h) in
      let (s', left, done, kept) =
        trim_each-returns first (length devices) size (size -ℤ now) _ s now known in
      (s', total_size devices size left, rw (added, listed, done) refl, kept)
  manage_set-returns first previous (same_size devices size) s (h, some_device) =
      let (grown, listed, same) = growths-devices devices s.chunks h in
      let (least, found) = least_growth-returns grown (λ empty. some_device (sym same ∙ empty)) in
      let (s', done, kept) = level_each-returns size least devices s h in
      (s', same_size devices size, rw (listed, found, done) refl, kept)

  manage_each-returns :
      (first : Bool) (previous : Growths) (sets : List SizeSet) (s : Round)
      → AllManageable (device_ids s.chunks) sets
      → (s' : Round) × (sets' : List SizeSet) × (manage_each quotient first previous sets s
          ≡ ok (s', sets'))
  unfolding manage_each
  manage_each-returns first previous [] s h = (s, [], refl)
  manage_each-returns first previous (ss ∷ sets) s (h, hs) =
      let (s1, ss1, one, kept) = manage_set-returns first previous ss s h in
      let (s2, sets2, rest) =
        manage_each-returns first previous sets s1
          (subst (λ ids. AllManageable ids sets) (sym kept) hs) in
      (s2, ss1 ∷ sets2, rw (one, rest) refl)

-- A round over the sets always ends without an error, where every device of a set has a request in some
-- chunk and a set of equal sizes has a device: no request is asked to give back more than it has grown by,
-- whatever the quotients computed, and the pool and what the requests hold add up to what they did before
-- in every chunk.
pub manage_each-completes :
    (quotient : ℤ → ℕ → ℤ) (first : Bool) (previous : Growths) (sets : List SizeSet) (s : Round)
    → AllManageable (device_ids s.chunks) sets
    → (s' : Round) × (sets' : List SizeSet) × (manage_each quotient first previous sets s
        ≡ ok (s', sets'))
      × (totals s'.chunks ≡ totals s.chunks)
manage_each-completes quotient first previous sets s h =
    let (s', sets', e) = manage_each-returns quotient first previous sets s h in
    (s', sets', e, manage_each-totals quotient first previous sets s e)

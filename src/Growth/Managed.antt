-- ===== src/Growth/Managed.antt =====
-- The rounds of `manage_size_sets` of blivet/partitioning.py: the units of each chunk are kept.
use blivet.Prelude.{
  ℕ, ◌≡◌, sym, ap, ◌∙◌, Bool, ◌&&◌, ok, >>=-eq-ok, ok-injective, ℤ, pos, ◌-ℤ◌, ltb_ℤ, eqb_ℤ, List,
  [], ◌∷◌, length, map, Bool-cases, inl, inr,
}
use blivet.Growth.Chunk.{Request, Chunk, min_ℤ}
use blivet.Growth.Sets.{
  SizeSet, total_size, same_size, Round, length_to_size, size_to_length, floor_div, max_ℤ, locate,
  found, by_growth, growths,
}
use blivet.Growth.Share.{
  Growths, take_back, allocate_new, trim_one, trim_each, level_one, level_each, least_growth,
  manage_set, manage_each,
}
use blivet.Growth.Kept.{totals, take_back-totals, close_if_met-totals, close-totals}

module _ (quotient : ℤ → ℕ → ℤ) where
  trim_one-totals :
      (first : Bool) (n : ℕ) (size needed : ℤ) (d place : ℕ) (c : Chunk) (r : Request) (s : Round)
      (allocated : ℤ) {s' : Round} {left : ℤ}
      → trim_one quotient first n size needed d place c r s allocated ≡ ok (s', left)
      → totals s'.chunks ≡ totals s.chunks
  unfolding trim_one
  trim_one-totals first n size needed d place c r s allocated h =
      let extra = floor_div (pos 0 -ℤ size_to_length quotient c.region needed) n in
      elim (Bool-cases (ltb_ℤ (size -ℤ allocated) (pos 0))) [
        | inr met ↦
            ap (λ (x : Round × ℤ). totals x.0.chunks) (sym (ok-injective (rw met at h)))
            ∙ close_if_met-totals (size -ℤ allocated) s d
        | inl short ↦ elim (Bool-cases (ltb_ℤ r.growth extra && first)) [
          | inl spared ↦
              ap (λ (x : Round × ℤ). totals x.0.chunks)
                (sym (ok-injective (rw (short, spared) at h)))
          | inr trimmed ↦
              let rest = allocated -ℤ length_to_size c.region (min_ℤ extra r.growth) in
              let (taken, one, e) =
                >>=-eq-ok (take_back s d place (min_ℤ extra r.growth)) _
                  (rw (short, trimmed) at h) in
              ap (λ (x : Round × ℤ). totals x.0.chunks) (sym (ok-injective e))
              ∙ close_if_met-totals (size -ℤ rest) taken d
              ∙ take_back-totals s d place (min_ℤ extra r.growth) one
        ]
      ]

  trim_each-totals :
      (first : Bool) (n : ℕ) (size needed : ℤ) (ds : List ℕ) (s : Round) (allocated : ℤ)
      {s' : Round} {left : ℤ}
      → trim_each quotient first n size needed ds s allocated ≡ ok (s', left)
      → totals s'.chunks ≡ totals s.chunks
  unfolding trim_each
  trim_each-totals first n size needed [] s allocated h =
      ap (λ (x : Round × ℤ). totals x.0.chunks) (sym (ok-injective h))
  trim_each-totals first n size needed (d ∷ ds) s allocated h =
      let ((place, c, r), _, h1) = >>=-eq-ok (found (locate d 0 s.chunks)) _ h in
      let ((s1, left1), step, rest) =
        >>=-eq-ok (trim_one quotient first n size needed d place c r s allocated) _ h1 in
      trim_each-totals first n size needed ds s1 left1 rest
      ∙ trim_one-totals first n size needed d place c r s allocated step

  level_one-totals :
      (size least : ℤ) (d place : ℕ) (c : Chunk) (r : Request) (s : Round) {s' : Round}
      → level_one quotient size least d place c r s ≡ ok s'
      → totals s'.chunks ≡ totals s.chunks
  unfolding level_one
  level_one-totals size least d place c r s h =
      let most = size_to_length quotient c.region size -ℤ pos r.base in
      let min_growth = max_ℤ (min_ℤ least most) (pos 0) in
      elim (Bool-cases (ltb_ℤ min_growth r.growth)) [
        | inl larger ↦
            let (taken, one, e) =
              >>=-eq-ok (take_back s d place (r.growth -ℤ min_growth)) _ (rw larger at h) in
            ap (λ (x : Round). totals x.chunks) (sym (ok-injective e))
            ∙ close-totals d taken.chunks
            ∙ take_back-totals s d place (r.growth -ℤ min_growth) one
        | inr not_larger ↦ elim (Bool-cases (eqb_ℤ r.growth min_growth)) [
          | inl equal ↦
              ap (λ (x : Round). totals x.chunks) (sym (ok-injective (rw (not_larger, equal) at h)))
              ∙ close-totals d s.chunks
          | inr smaller ↦
              ap (λ (x : Round). totals x.chunks)
                (sym (ok-injective (rw (not_larger, smaller) at h)))
        ]
      ]

  level_each-totals :
      (size least : ℤ) (ds : List ℕ) (s : Round) {s' : Round}
      → level_each quotient size least ds s ≡ ok s'
      → totals s'.chunks ≡ totals s.chunks
  unfolding level_each
  level_each-totals size least [] s h = ap (λ (x : Round). totals x.chunks) (sym (ok-injective h))
  level_each-totals size least (d ∷ ds) s h =
      let ((place, c, r), _, h1) = >>=-eq-ok (found (locate d 0 s.chunks)) _ h in
      let (s1, step, rest) = >>=-eq-ok (level_one quotient size least d place c r s) _ h1 in
      level_each-totals size least ds s1 rest ∙ level_one-totals size least d place c r s step

  manage_set-totals :
      (first : Bool) (previous : Growths) (ss : SizeSet) (s : Round) {s' : Round} {ss' : SizeSet}
      → manage_set quotient first previous ss s ≡ ok (s', ss')
      → totals s'.chunks ≡ totals s.chunks
  unfolding manage_set
  manage_set-totals first previous (total_size devices size allocated) s h =
      let (now, _, h1) =
        >>=-eq-ok (allocate_new quotient previous s.chunks devices allocated) _ h in
      let (grown, _, h2) = >>=-eq-ok (growths devices s.chunks) _ h1 in
      let ((s1, left), step, e) =
        >>=-eq-ok
          (trim_each quotient first (length devices) size (size -ℤ now)
            (map (λ (x : ℕ × ℤ). x.0) (by_growth grown)) s now)
          _ h2 in
      ap (λ (x : Round × SizeSet). totals x.0.chunks) (sym (ok-injective e))
      ∙ trim_each-totals first (length devices) size (size -ℤ now) _ s now step
  manage_set-totals first previous (same_size devices size) s h =
      let (grown, _, h1) = >>=-eq-ok (growths devices s.chunks) _ h in
      let (least, _, h2) = >>=-eq-ok (least_growth quotient grown) _ h1 in
      let (s1, step, e) = >>=-eq-ok (level_each quotient size least devices s) _ h2 in
      ap (λ (x : Round × SizeSet). totals x.0.chunks) (sym (ok-injective e))
      ∙ level_each-totals size least devices s step

  pub manage_each-totals :
      (first : Bool) (previous : Growths) (sets : List SizeSet) (s : Round) {s' : Round}
      {sets' : List SizeSet}
      → manage_each quotient first previous sets s ≡ ok (s', sets')
      → totals s'.chunks ≡ totals s.chunks
  unfolding manage_each
  manage_each-totals first previous [] s h =
      ap (λ (x : Round × List SizeSet). totals x.0.chunks) (sym (ok-injective h))
  manage_each-totals first previous (ss ∷ sets) s h =
      let ((s1, ss1), one, h1) = >>=-eq-ok (manage_set quotient first previous ss s) _ h in
      let ((s2, sets2), rest, e) = >>=-eq-ok (manage_each quotient first previous sets s1) _ h1 in
      ap (λ (x : Round × List SizeSet). totals x.0.chunks) (sym (ok-injective e))
      ∙ manage_each-totals first previous sets s1 rest
      ∙ manage_set-totals first previous ss s one

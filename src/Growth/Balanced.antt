-- ===== src/Growth/Balanced.antt =====
-- `manage_size_sets` of blivet/partitioning.py as a whole, and the calls of `reclaim` that it makes.
use blivet.Prelude.{
  ℕ, suc, ◌≡◌, sym, ap, ◌∙◌, Bool, true, false, ◌&&◌, not, ok, >>=-eq-ok, ok-injective, ℤ, pos,
  eqb_ℤ, if◌then◌else◌, List, [], ◌∷◌,
}
use blivet.Growth.Chunk.{Chunk}
use blivet.Growth.Grow.{Quotients, is_done, grow_requests}
use blivet.Growth.Conserve.{total, grow_requests-total}
use blivet.Growth.Sets.{SizeSet, Round}
use blivet.Growth.Share.{Growths, manage_each, grow_again, manage_round, manage_size_sets}
use blivet.Growth.Kept.{totals}
use blivet.Growth.Managed.{manage_each-totals}

module _ (quotient : ℤ → ℕ → ℤ) (ops : Quotients) (passes : ℕ) where
  grow_one-total :
      (grows : Bool) (c : Chunk) {c' : Chunk}
      → (if grows then grow_requests ops false passes c else ok c) ≡ ok c'
      → total c' ≡ total c
  grow_one-total true c h = grow_requests-total ops false passes c h
  grow_one-total false c h = ap total (sym (ok-injective h))

  grow_again-totals :
      (place : ℕ) (reclaimed : ℕ → ℤ) (cs : List Chunk) {cs' : List Chunk}
      → grow_again quotient ops passes place reclaimed cs ≡ ok cs'
      → totals cs' ≡ totals cs
  unfolding grow_again
  grow_again-totals place reclaimed [] h = ap totals (sym (ok-injective h))
  grow_again-totals place reclaimed (c ∷ cs) h =
      let grows = not (eqb_ℤ (reclaimed place) (pos 0)) && not (is_done c.requests c.pool) in
      let (c', one, h1) =
        >>=-eq-ok (if grows then grow_requests ops false passes c else ok c) _ h in
      let (cs', rest, e) =
        >>=-eq-ok (grow_again quotient ops passes (suc place) reclaimed cs) _ h1 in
      let first = grow_one-total grows c one in
      let others = grow_again-totals (suc place) reclaimed cs rest in
      ap totals (sym (ok-injective e)) ∙ (λ i. first i ∷ others i)

  manage_round-totals :
      (first : Bool) (previous : Growths) (sets : List SizeSet) (chunks : List Chunk)
      {chunks' : List Chunk} {sets' : List SizeSet} {previous' : Growths}
      → manage_round quotient ops passes first previous sets chunks ≡ ok (chunks', sets', previous')
      → totals chunks' ≡ totals chunks
  unfolding manage_round
  manage_round-totals first previous sets chunks h =
      let start : Round = record { chunks = chunks; reclaimed = λ j. pos 0 } in
      let ((s, sets1), managed, h1) =
        >>=-eq-ok (manage_each quotient first previous sets start) _ h in
      let (chunks1, grown, e) =
        >>=-eq-ok (grow_again quotient ops passes 0 s.reclaimed s.chunks) _ h1 in
      ap (λ (x : List Chunk × List SizeSet × Growths). totals x.0) (sym (ok-injective e))
      ∙ grow_again-totals 0 s.reclaimed s.chunks grown
      ∙ manage_each-totals quotient first previous sets start managed

-- Managing sets of devices with a common total size, or of the same size each, takes units from some
-- requests, and lets others grow, but, where it returns, keeps the units of every chunk: for each, the
-- pool and what all its requests hold add up to what they did before, whatever the quotients computed
-- and however many passes are made.
pub manage_size_sets-totals :
    (quotient : ℤ → ℕ → ℤ) (ops : Quotients) (passes : ℕ) (sets : List SizeSet)
    (chunks : List Chunk) {chunks' : List Chunk}
    → manage_size_sets quotient ops passes sets chunks ≡ ok chunks'
    → totals chunks' ≡ totals chunks
unfolding manage_size_sets
manage_size_sets-totals quotient ops passes sets chunks h =
    let ((once, sets1, previous), round_one, h1) =
      >>=-eq-ok (manage_round quotient ops passes true (λ id. pos 0) sets chunks) _ h in
    let ((twice, _, _), round_two, e) =
      >>=-eq-ok (manage_round quotient ops passes false previous sets1 once) _ h1 in
    ap totals (sym (ok-injective e))
    ∙ manage_round-totals quotient ops passes false previous sets1 once round_two
    ∙ manage_round-totals quotient ops passes true (λ id. pos 0) sets chunks round_one

-- ===== src/Growth/Passes.antt =====
-- The passes of `grow_requests` of blivet/partitioning.py come to an end: each takes units from the pool,
-- or is the last but one.
use blivet.Prelude.{
  ℕ, zero, suc, ◌≤◌, ◌<◌, ◌≡◌, refl, sym, ap, ◌∙◌, subst, Bool, true, false, ◌||◌, ok, Result-cases,
  ◌>>=◌, arith, ℤ, pos, eqb_ℤ, List, [], ◌==◌, Bool-cases, inl, inr, All,
}
use blivet.Growth.Chunk.{Chunk, plain}
use blivet.Growth.Grow.{
  Quotients, sort_requests, finish, grow_requests, grow_each, grow_passes, remaining, is_done,
}
use blivet.Growth.Pool.{Sound, RoundsDown}
use blivet.Growth.Pass.{open_weight, Pass, first_fits, grow_each-Pass}

module _ (ops : Quotients) (rounds : RoundsDown ops) (uniform : Bool) (skip : List ℕ) where
  -- Where the loop stops, further passes change nothing.
  grow_passes-stops :
      (passes : ℕ) (c : Chunk) (last new_base : ℤ)
      → (is_done c.requests c.pool || eqb_ℤ last c.pool) ≡ true
      → grow_passes ops uniform passes c last new_base ≡ ok c
  unfolding grow_passes
  grow_passes-stops zero c last new_base h = refl
  grow_passes-stops (suc passes) c last new_base h = rw h refl

  grow_passes-enough :
      (n m : ℕ) (c : Chunk) (q base : ℕ) (last : ℤ)
      → c.region ≡ plain
      → c.skip_list ≡ skip
      → c.pool ≡ pos q
      → All Sound c.requests
      → open_weight false skip c.requests ≤ base
      → q < n
      → q < m
      → grow_passes ops uniform n c last (pos base) ≡ grow_passes ops uniform m c last (pos base)
  unfolding grow_passes
  grow_passes-enough zero m c q base last region skips pool sound low h h' = elim h [ ]
  grow_passes-enough (suc n) zero c q base last region skips pool sound low h h' = elim h' [ ]
  grow_passes-enough (suc n) (suc m) c q base last region skips pool sound low h h' =
      elim (Bool-cases (is_done c.requests c.pool || eqb_ℤ last c.pool)) [
        | inl stops ↦ rw stops refl
        | inr goes ↦
            elim (Result-cases (
              grow_each ops uniform c.region c.skip_list (remaining c.requests) (pos base) c.pool []
                c.requests c.pool (pos base))) [
                  | inr (e, raised) ↦ rw (goes, raised) refl
                  | inl ((rs, p, b), passed) ↦
                      let pass : Pass skip q rs p b =
                        grow_each-Pass ops rounds uniform skip (remaining c.requests) base q []
                          c.requests q base (ground (arith, goes)) tt sound (omega arith)
                          (first_fits uniform skip c.requests base q low)
                          (rw (region, skips, pool) at passed) in
                      let next = record c { requests = rs; pool = p; base = pos base } in
                      rw (goes, passed, pass.same_base)
                        (elim (Bool-cases (pass.left == q)) [
                          | inl same ↦
                              let stops : (is_done rs p || eqb_ℤ c.pool p) ≡ true =
                                rw (pool, pass.same_pool) (ground (arith, same)) in
                              grow_passes-stops n next c.pool (pos pass.new_base) stops
                              ∙ sym (grow_passes-stops m next c.pool (pos pass.new_base) stops)
                          | inr less ↦
                              grow_passes-enough n m next pass.left pass.new_base c.pool region
                                skips pass.same_pool pass.sound pass.low
                                (ground (arith, less, pass.not_less))
                                (ground (arith, less, pass.not_less))
                        ])
                ]
      ]

-- The passes of a chunk that is no disk's come to an end. Where the pool is a number of units, the base
-- covers those of the open requests, no request that is not done has grown beyond its largest growth, and quotients are
-- rounded down: any two numbers of passes that exceed the pool give the same result.
pub grow_requests-enough :
    (ops : Quotients) (uniform : Bool) (c : Chunk) (pool base passes more : ℕ)
    → RoundsDown ops
    → c.region ≡ plain
    → c.pool ≡ pos pool
    → c.base ≡ pos base
    → All Sound c.requests
    → open_weight false c.skip_list c.requests ≤ base
    → pool < passes
    → pool < more
    → grow_requests ops uniform passes c ≡ grow_requests ops uniform more c
unfolding grow_requests
grow_requests-enough ops uniform c pool base passes more rounds region is_pool is_base sound low h
      h' =
    let sorted = record c { requests = sort_requests c.region c.requests } in
    let same : sort_requests c.region c.requests ≡ c.requests =
      rw region (unfold sort_requests in refl) in
    let enough_passes =
      grow_passes-enough ops rounds uniform c.skip_list passes more sorted pool base (pos 0) region
        refl is_pool (rw same sound) (rw same low) h h' in
    ap (λ x. x >>= λ grown. ok (finish ops uniform grown))
      (subst
        (λ b.
          grow_passes ops uniform passes sorted (pos 0) b
          ≡ grow_passes ops uniform more sorted (pos 0) b)
        (sym is_base) enough_passes)

-- ===== src/Growth/Overdraw.antt =====
-- The pool of a chunk is never overdrawn, in `grow_requests` of blivet/partitioning.py: what requests hold
-- stays within the chunk.
use blivet.Prelude.{
  ℕ, zero, suc, ◌≤◌, ◌≡◌, refl, sym, ap, ◌∙◌, subst, Bool, false, ◌&&◌, ◌||◌, not, ok, >>=-eq-ok,
  ok-injective, arith, int_laws, ℤ, pos, ◌+ℤ◌, ◌-ℤ◌, ◌≤ℤ◌, eqb_ℤ, leb_ℤ, List, [], ◌∷◌, ◌++◌,
  Bool-cases, inl, inr, All,
}
use blivet.Growth.Chunk.{Request, Chunk, plain, max_growth}
use blivet.Growth.Grow.{
  Quotients, trim_to, trim_over_grown_request, grow_request, sort_requests, finish, grow_requests,
  grow_each, grow_leftover, grow_passes, remaining, is_done, is_skipped,
}
use blivet.Growth.Pool.{Sound, Bounded, RoundsDown, grow_request-Taken}
use blivet.Growth.Pass.{open_weight, open-Bounded, Pass, first_fits, grow_each-Pass}
use blivet.Growth.Conserve.{total, committed, grow_requests-total}

trim_to-base :
    (limit : ℤ) (r : Request) (pool base base' : ℤ)
    → ((trim_to limit r pool base).pool ≡ (trim_to limit r pool base').pool)
      × ((trim_to limit r pool base).request ≡ (trim_to limit r pool base').request)
trim_to-base limit r pool base base' =
    elim (Bool-cases (not (eqb_ℤ limit (pos 0)) && leb_ℤ limit r.growth)) [
      | inl over ↦ rw over (refl, refl)
      | inr under ↦ rw under (refl, refl)
    ]

-- A request that is given the whole pool puts back what exceeds its largest growth.
given_all :
    (before after : List Request) (r : Request) (q : ℕ)
    → Bounded r
    → let t = grow_request plain before r after (pos q) (pos q) (pos 0) in
      (left : ℕ) × (t.pool ≡ pos left) × (left ≤ q) × Sound t.request
unfolding grow_request trim_over_grown_request max_growth
given_all before after r q bounded =
    let taken = grow_request-Taken before after r q q r.base bounded (omega arith) (omega arith) in
    let (pool, request) =
      trim_to-base r.max_growth (record r { growth = r.growth +ℤ pos q }) (pos q -ℤ pos q) (pos 0)
        (pos r.base) in
    (taken.left, pool ∙ taken.pool, taken.not_less, subst Sound (sym request) taken.sound)

module _ (ops : Quotients) (uniform : Bool) (skip : List ℕ) where
  grow_leftover-not_less :
      (before after : List Request) (q : ℕ)
      → All Sound after
      → let (rs, p) = grow_leftover ops uniform plain skip before after (pos q) in
        (left : ℕ) × (p ≡ pos left) × (left ≤ q)
  unfolding grow_leftover
  grow_leftover-not_less before [] q sound = (q, refl, omega arith)
  grow_leftover-not_less before (r ∷ after) q sound =
      elim (Bool-cases (r.done || is_skipped skip r)) [
        | inl passed ↦ rw passed (grow_leftover-not_less (before ++ r ∷ []) after q sound.1)
        | inr grows ↦
            let t = grow_request plain before r after (pos q) (pos q) (pos 0) in
            let (left, e, le, _) = given_all before after r q (open-Bounded skip r sound.0 grows) in
            rw grows (elim (Bool-cases (eqb_ℤ t.pool (pos 0))) [
              | inl spent ↦ rw spent (left, e, le)
              | inr put_back ↦
                  let (left', e', le') =
                    grow_leftover-not_less (before ++ t.request ∷ []) after left sound.1 in
                  rw (put_back, e) (left', e', omega arith)
            ])
      ]

-- What the passes leave: no less than nothing.
abbrev WithinPool : List ℕ → ℕ → Chunk → Type 0
WithinPool skip q c =
    (left : ℕ) × (c.pool ≡ pos left) × (left ≤ q) × All Sound c.requests × (c.region ≡ plain)

module _ (ops : Quotients) (rounds : RoundsDown ops) (uniform : Bool) (skip : List ℕ) where
  grow_passes-WithinPool :
      (passes : ℕ) (c : Chunk) (q base : ℕ) (last : ℤ) {c' : Chunk}
      → c.region ≡ plain
      → c.skip_list ≡ skip
      → c.pool ≡ pos q
      → All Sound c.requests
      → open_weight false skip c.requests ≤ base
      → grow_passes ops uniform passes c last (pos base) ≡ ok c'
      → WithinPool skip q c'
  unfolding grow_passes
  grow_passes-WithinPool zero c q base last region skips pool sound low h =
      subst (WithinPool skip q) (ok-injective h) (q, pool, omega arith, sound, region)
  grow_passes-WithinPool (suc passes) c q base last region skips pool sound low h =
      elim (Bool-cases (is_done c.requests c.pool || eqb_ℤ last c.pool)) [
        | inl stops ↦
            subst (WithinPool skip q) (ok-injective (rw stops at h))
              (q, pool, omega arith, sound, region)
        | inr goes ↦
            let ((rs, p, b), passed, rest) =
              >>=-eq-ok
                (grow_each ops uniform c.region c.skip_list (remaining c.requests) (pos base) c.pool
                  [] c.requests c.pool (pos base))
                _ (rw goes at h) in
            let pass : Pass skip q rs p b =
              grow_each-Pass ops rounds uniform skip (remaining c.requests) base q [] c.requests q
                base (ground (arith, goes)) tt sound (omega arith)
                (first_fits uniform skip c.requests base q low)
                (rw (region, skips, pool) at passed) in
            let (left, e, le, rest_sound, same) =
              grow_passes-WithinPool passes (record c { requests = rs; pool = p; base = pos base })
                pass.left pass.new_base c.pool region skips pass.same_pool pass.sound pass.low
                (rw pass.same_base at rest) in
            (left, e, omega (arith, pass.not_less), rest_sound, same)
      ]

finish-not_less :
    (ops : Quotients) (uniform : Bool) (c : Chunk) (left : ℕ)
    → c.region ≡ plain
    → c.pool ≡ pos left
    → All Sound c.requests
    → (left' : ℕ) × ((finish ops uniform c).pool ≡ pos left') × (left' ≤ left)
unfolding finish
finish-not_less ops uniform c left region pool sound = elim (Bool-cases (eqb_ℤ c.pool (pos 0))) [
  | inl spent ↦ rw spent (left, pool, omega arith)
  | inr some ↦
      rw (some, region, pool)
        (grow_leftover-not_less ops uniform c.skip_list [] c.requests left sound)
]

le-total : (left : ℕ) (rest all : ℤ) → pos left +ℤ rest ≡ all → rest ≤ℤ all
le-total left rest all e = subst (λ x. rest ≤ℤ x) e (grind int_laws)

-- The requests of a chunk that is no disk's never take more than the chunk has. Where the pool is a number
-- of units, the base covers those of the open requests, no request that is not done has grown beyond
-- its largest growth, and quotients are rounded down: after any number of passes, what all requests
-- hold is at most what the pool and the requests held before.
pub grow_requests-fits :
    (ops : Quotients) (uniform : Bool) (c : Chunk) (pool base passes : ℕ) {c' : Chunk}
    → RoundsDown ops
    → c.region ≡ plain
    → c.pool ≡ pos pool
    → c.base ≡ pos base
    → All Sound c.requests
    → open_weight false c.skip_list c.requests ≤ base
    → grow_requests ops uniform passes c ≡ ok c'
    → committed c'.requests ≤ℤ total c
unfolding grow_requests
grow_requests-fits ops uniform c pool base passes {c'} rounds region is_pool is_base sound low h =
    let sorted = record c { requests = sort_requests c.region c.requests } in
    let same : sort_requests c.region c.requests ≡ c.requests =
      rw region (unfold sort_requests in refl) in
    let (grown, run, e) = >>=-eq-ok (grow_passes ops uniform passes sorted (pos 0) c.base) _ h in
    let (left, is_left, _, grown_sound, plain_still) =
      grow_passes-WithinPool ops rounds uniform c.skip_list passes sorted pool base (pos 0) region
        refl is_pool (rw same sound) (rw same low)
        (ap (λ b. grow_passes ops uniform passes sorted (pos 0) b) (sym is_base) ∙ run) in
    let (left', ends, _) = finish-not_less ops uniform grown left plain_still is_left grown_sound in
    let end_pool : c'.pool ≡ pos left' = ap (λ (x : Chunk). x.pool) (sym (ok-injective e)) ∙ ends in
    let all_units = grow_requests-total ops uniform passes c h in
    le-total left' (committed c'.requests) (total c)
      (ap (λ x. x +ℤ committed c'.requests) (sym end_pool) ∙ all_units)

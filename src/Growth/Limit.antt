-- ===== src/Growth/Limit.antt =====
-- The largest growth of a request, in `grow_requests` of blivet/partitioning.py.
use blivet.Prelude.{
  ℕ, zero, suc, ◌≡◌, refl, ap, Bool, ◌||◌, ok, >>=-eq-ok, ok-injective, arith, ℤ, pos, ◌+ℤ◌, ◌-ℤ◌,
  ◌≤ℤ◌, eqb_ℤ, leb_ℤ, List, [], ◌∷◌, ◌++◌, Bool-cases, inl, inr, ◌⊎◌, subst, All,
}
use blivet.Growth.Chunk.{Request, Chunk, plain, max_growth}
use blivet.Growth.Grow.{
  Quotients, trim_to, trim_over_grown_request, grow_request, growth_of, grow_each, grow_leftover,
  grow_passes, sort_requests, finish, grow_requests, remaining, is_done, is_skipped,
}

-- The growth is at most the maximum, where there is one; 0 stands for none.
abbrev pub Within : Request → Type 0
Within r = (r.max_growth ≡ pos 0) ⊎ (r.growth ≤ℤ r.max_growth)

abbrev pub AllWithin : List Request → Type 0
AllWithin rs = All Within rs

All-append : (xs ys : List Request) → AllWithin xs → AllWithin ys → AllWithin (xs ++ ys)
All-append [] ys h k = k
All-append (x ∷ xs) ys h k = (h.0, All-append xs ys h.1 k)

All-snoc : (xs : List Request) (r : Request) → AllWithin xs → Within r → AllWithin (xs ++ r ∷ [])
All-snoc xs r h k = All-append xs (r ∷ []) h (k, tt)

trim_to-Within :
    (r : Request) (pool base : ℤ) → let t = trim_to r.max_growth r pool base in Within t.request
trim_to-Within r pool base = elim (Bool-cases (eqb_ℤ r.max_growth (pos 0))) [
  | inl none_given ↦ rw none_given (inl (ground arith))
  | inr given ↦ elim (Bool-cases (leb_ℤ r.max_growth r.growth)) [
    | inl over ↦ rw (given, over) (inr (omega arith))
    | inr under ↦ rw (given, under) (inr (ground arith))
  ]
]

-- Whatever a request receives, it ends within its maximum.
grow_request-Within :
    (before : List Request) (r : Request) (after : List Request) (growth pool base : ℤ)
    → let t = grow_request plain before r after growth pool base in Within t.request
unfolding grow_request trim_over_grown_request max_growth
grow_request-Within before r after growth pool base =
    trim_to-Within (record r { growth = r.growth +ℤ growth }) (pool -ℤ growth) base

module _ (ops : Quotients) (uniform : Bool) (skip_list : List ℕ) where
  grow_each-Within :
      (n : ℕ) (base_total last_pool : ℤ) (before after : List Request) (pool base : ℤ)
      {rs : List Request} {p b : ℤ}
      → AllWithin before
      → AllWithin after
      → grow_each ops uniform plain skip_list n base_total last_pool before after pool base
        ≡ ok (rs, p, b)
      → AllWithin rs
  unfolding grow_each
  grow_each-Within n s l before [] pool base hb ha h =
      subst (λ xs. AllWithin xs) (ap (λ x. x.0) (ok-injective h)) hb
  grow_each-Within n s l before (r ∷ after) pool base hb ha h =
      elim (Bool-cases (r.done || is_skipped skip_list r)) [
        | inl passed ↦
            grow_each-Within n s l (before ++ r ∷ []) after pool base (All-snoc before r hb ha.0)
              ha.1 (rw passed at h)
        | inr grows ↦
            let (growth, _, rest) =
              >>=-eq-ok (growth_of ops uniform plain skip_list n s l r) _ (rw grows at h) in
            let t = grow_request plain before r after growth pool base in
            grow_each-Within n s l (before ++ t.request ∷ []) after t.pool t.base
              (All-snoc before t.request hb (grow_request-Within before r after growth pool base))
              ha.1 rest
      ]

  grow_leftover-Within :
      (before after : List Request) (pool : ℤ)
      → AllWithin before
      → AllWithin after
      → let (rs, p) = grow_leftover ops uniform plain skip_list before after pool in AllWithin rs
  unfolding grow_leftover
  grow_leftover-Within before [] pool hb ha = hb
  grow_leftover-Within before (r ∷ after) pool hb ha =
      elim (Bool-cases (r.done || is_skipped skip_list r)) [
        | inl passed ↦
            rw passed
              (grow_leftover-Within (before ++ r ∷ []) after pool (All-snoc before r hb ha.0) ha.1)
        | inr grows ↦
            let t = grow_request plain before r after pool pool (pos 0) in
            let here = grow_request-Within before r after pool pool (pos 0) in
            rw grows (elim (Bool-cases (eqb_ℤ t.pool (pos 0))) [
              | inl spent ↦ rw spent (All-append before (t.request ∷ after) hb (here, ha.1))
              | inr put_back ↦ rw put_back (
                  grow_leftover-Within (before ++ t.request ∷ []) after t.pool
                    (All-snoc before t.request hb here) ha.1)
            ])
      ]

module _ (ops : Quotients) (uniform : Bool) where
  grow_passes-Within :
      (passes : ℕ) (c : Chunk) (last_pool new_base : ℤ) {c' : Chunk}
      → c.region ≡ plain
      → AllWithin c.requests
      → grow_passes ops uniform passes c last_pool new_base ≡ ok c'
      → (c'.region ≡ plain) × AllWithin c'.requests
  unfolding grow_passes
  grow_passes-Within zero c last_pool new_base region within h =
      subst (λ (x : Chunk). (x.region ≡ plain) × AllWithin x.requests) (ok-injective h)
        (region, within)
  grow_passes-Within (suc passes) c last_pool new_base region within h =
      elim (Bool-cases (is_done c.requests c.pool || eqb_ℤ last_pool c.pool)) [
        | inl stops ↦
            subst (λ (x : Chunk). (x.region ≡ plain) × AllWithin x.requests)
              (ok-injective (rw stops at h)) (region, within)
        | inr goes ↦
            let ((requests, pool, base), pass, rest) =
              >>=-eq-ok
                (grow_each ops uniform c.region c.skip_list (remaining c.requests) new_base c.pool
                  [] c.requests c.pool new_base)
                _ (rw goes at h) in
            grow_passes-Within passes
              (record c { requests = requests; pool = pool; base = new_base }) c.pool base region
              (grow_each-Within ops uniform c.skip_list (remaining c.requests) new_base c.pool []
                c.requests c.pool new_base tt within (rw region at pass))
              rest
      ]

  finish-Within :
      (c : Chunk)
      → c.region ≡ plain
      → AllWithin c.requests
      → let c' = finish ops uniform c in AllWithin c'.requests
  unfolding finish
  finish-Within c region within = elim (Bool-cases (eqb_ℤ c.pool (pos 0))) [
    | inl spent ↦ rw spent within
    | inr left ↦
        rw (left, region)
          (grow_leftover-Within ops uniform c.skip_list [] c.requests c.pool tt within)
  ]

  -- Growing the requests of a chunk that is no disk's, where it returns, keeps each within its
  -- largest growth, where it has one, if each was so before; whatever the quotients and the number
  -- of passes.
  pub grow_requests-AllWithin :
      (passes : ℕ) (c : Chunk) {c' : Chunk}
      → c.region ≡ plain
      → AllWithin c.requests
      → grow_requests ops uniform passes c ≡ ok c'
      → AllWithin c'.requests
  unfolding grow_requests
  grow_requests-AllWithin passes c region within h =
      let sorted = record c { requests = sort_requests c.region c.requests } in
      let (grown, run, e) = >>=-eq-ok (grow_passes ops uniform passes sorted (pos 0) c.base) _ h in
      let same : sort_requests c.region c.requests ≡ c.requests =
        rw region (unfold sort_requests in refl) in
      let (region', within') =
        grow_passes-Within passes sorted (pos 0) c.base region (rw same within) run in
      subst (λ (x : Chunk). AllWithin x.requests) (ok-injective e)
        (finish-Within grown region' within')

-- ===== src/Growth/Conserve.antt =====
-- No unit of a chunk of blivet/partitioning.py is lost or made as its requests grow.
use blivet.Prelude.{
  ℕ, zero, suc, ◌≡◌, refl, sym, ◌∙◌, ap, Bool, ◌||◌, not, ok, >>=-eq-ok, ok-injective, int_laws, ℤ,
  pos, ◌+ℤ◌, ◌-ℤ◌, eqb_ℤ, leb_ℤ, leb, ◌&&◌, List, [], ◌∷◌, ◌++◌, Bool-cases, inl, inr,
}
use blivet.Growth.Chunk.{Request, Chunk, Region, plain, disk, max_growth}
use blivet.Growth.Grow.{
  Quotients, trim_to, trim_over_grown_request, grow_request, growth_of, grow_each, grow_leftover,
  grow_passes, sorted_requests, sort_requests, insert_request, finish, grow_requests, remaining,
  is_done, is_skipped,
}

-- The units that a request holds.
abbrev pub used : Request → ℤ
used r = pos r.base +ℤ pos r.reserve_request +ℤ r.growth

abbrev pub committed : List Request → ℤ
committed [] = pos 0
committed (r ∷ rs) = used r +ℤ committed rs

-- The free units and those of the requests.
abbrev pub total : Chunk → ℤ
total c = c.pool +ℤ committed c.requests

committed-append : (xs ys : List Request) → committed (xs ++ ys) ≡ committed xs +ℤ committed ys
committed-append [] ys = grind int_laws
committed-append (x ∷ xs) ys = grind (int_laws, committed-append xs ys)

trim_to-total :
    (limit : ℤ) (r : Request) (pool base : ℤ)
    → let t = trim_to limit r pool base in t.pool +ℤ used t.request ≡ pool +ℤ used r
trim_to-total limit r pool base =
    elim (Bool-cases (not (eqb_ℤ limit (pos 0)) && leb_ℤ limit r.growth)) [
      | inl over ↦ rw over (grind int_laws)
      | inr under ↦ rw under
    ]

grow_request-total :
    (region : Region) (before : List Request) (r : Request) (after : List Request)
    (growth pool base : ℤ)
    → let t = grow_request region before r after growth pool base in
      t.pool +ℤ used t.request ≡ pool +ℤ used r
unfolding grow_request trim_over_grown_request
grow_request-total region before r after growth pool base =
    let grown = record r { growth = r.growth +ℤ growth } in
    let h =
      trim_to-total (max_growth region (before ++ grown ∷ after) grown) grown (pool -ℤ growth)
        base in
    h ∙ grind int_laws

committed-snoc :
    (before : List Request) (r : Request)
    → committed (before ++ r ∷ []) ≡ committed before +ℤ used r
committed-snoc before r = committed-append before (r ∷ []) ∙ grind int_laws

-- A request in the middle that exchanges units with the pool.
regroup : (q b v c : ℤ) → q +ℤ (b +ℤ (v +ℤ c)) ≡ (q +ℤ v) +ℤ (b +ℤ c)
regroup q b v c = grind int_laws

regroup_left : (q b v c : ℤ) → q +ℤ (b +ℤ v) +ℤ c ≡ (q +ℤ v) +ℤ (b +ℤ c)
regroup_left q b v c = grind int_laws

regroup_right : (p b u c : ℤ) → p +ℤ b +ℤ (u +ℤ c) ≡ (p +ℤ u) +ℤ (b +ℤ c)
regroup_right p b u c = grind int_laws

exchange :
    (p q b u v c all : ℤ) → q +ℤ v ≡ p +ℤ u → all ≡ b +ℤ (v +ℤ c) → q +ℤ all ≡ p +ℤ b +ℤ (u +ℤ c)
exchange p q b u v c all same e = rw (e, regroup, same) (sym (regroup_right p b u c))

exchange_snoc :
    (p q b u v c all : ℤ) → q +ℤ v ≡ p +ℤ u → all ≡ b +ℤ v → q +ℤ all +ℤ c ≡ p +ℤ b +ℤ (u +ℤ c)
exchange_snoc p q b u v c all same e = rw (e, regroup_left, same) (sym (regroup_right p b u c))

module _ (ops : Quotients) (uniform : Bool) (region : Region) (skip_list : List ℕ) where
  grow_each-total :
      (n : ℕ) (base_total last_pool : ℤ) (before after : List Request) (pool base : ℤ)
      {rs : List Request} {p b : ℤ}
      → grow_each ops uniform region skip_list n base_total last_pool before after pool base
        ≡ ok (rs, p, b)
      → p +ℤ committed rs ≡ pool +ℤ committed before +ℤ committed after
  unfolding grow_each
  grow_each-total n s l before [] pool base h =
      let e = ok-injective h in
      let e0 = ap (λ x. x.0) e in let e1 = ap (λ x. x.1) e in grind (int_laws, e0, e1)
  grow_each-total n s l before (r ∷ after) pool base {rs} {p} {b} h =
      elim (Bool-cases (r.done || is_skipped skip_list r)) [
        | inl passed ↦
            let ih = grow_each-total n s l (before ++ r ∷ []) after pool base (rw passed at h) in
            grind (int_laws, ih, committed-snoc before r)
        | inr grows ↦
            let (growth, _, rest) =
              >>=-eq-ok (growth_of ops uniform region skip_list n s l r) _ (rw grows at h) in
            let t = grow_request region before r after growth pool base in
            let ih = grow_each-total n s l (before ++ t.request ∷ []) after t.pool t.base rest in
            ih
            ∙ exchange_snoc pool t.pool (committed before) (used r) (used t.request)
                (committed after) (committed (before ++ t.request ∷ []))
                (grow_request-total region before r after growth pool base)
                (committed-snoc before t.request)
      ]

  grow_leftover-total :
      (before after : List Request) (pool : ℤ)
      → let (rs, p) = grow_leftover ops uniform region skip_list before after pool in
        p +ℤ committed rs ≡ pool +ℤ committed before +ℤ committed after
  unfolding grow_leftover
  grow_leftover-total before [] pool = grind int_laws
  grow_leftover-total before (r ∷ after) pool =
      elim (Bool-cases (r.done || is_skipped skip_list r)) [
        | inl passed ↦ rw passed (
            grow_leftover-total (before ++ r ∷ []) after pool
            ∙ grind (int_laws, committed-snoc before r))
        | inr grows ↦
            let t = grow_request region before r after pool pool (pos 0) in
            let same = grow_request-total region before r after pool pool (pos 0) in
            rw grows (elim (Bool-cases (eqb_ℤ t.pool (pos 0))) [
              | inl spent ↦ rw spent (
                  exchange pool t.pool (committed before) (used r) (used t.request)
                    (committed after) (committed (before ++ t.request ∷ after)) same
                    (committed-append before (t.request ∷ after)))
              | inr put_back ↦ rw put_back (
                  grow_leftover-total (before ++ t.request ∷ []) after t.pool
                  ∙ exchange_snoc pool t.pool (committed before) (used r) (used t.request)
                      (committed after) (committed (before ++ t.request ∷ [])) same
                      (committed-snoc before t.request))
            ])
      ]

grow_passes-total :
    (ops : Quotients) (uniform : Bool) (passes : ℕ) (c : Chunk) (last_pool new_base : ℤ)
    {c' : Chunk}
    → grow_passes ops uniform passes c last_pool new_base ≡ ok c'
    → total c' ≡ total c
unfolding grow_passes
grow_passes-total ops uniform zero c last_pool new_base h = ap total (sym (ok-injective h))
grow_passes-total ops uniform (suc passes) c last_pool new_base h =
    elim (Bool-cases (is_done c.requests c.pool || eqb_ℤ last_pool c.pool)) [
      | inl stops ↦ ap total (sym (ok-injective (rw stops at h)))
      | inr goes ↦
          let ((requests, pool, base), pass, rest) =
            >>=-eq-ok
              (grow_each ops uniform c.region c.skip_list (remaining c.requests) new_base c.pool []
                c.requests c.pool new_base)
              _ (rw goes at h) in
          let next = record c { requests = requests; pool = pool; base = new_base } in
          grow_passes-total ops uniform passes next c.pool base rest
          ∙ grow_each-total ops uniform c.region c.skip_list (remaining c.requests) new_base c.pool
              [] c.requests c.pool new_base pass
          ∙ grind int_laws
    ]

insert_request-committed :
    (r : Request) (rs : List Request) → committed (insert_request r rs) ≡ used r +ℤ committed rs
insert_request-committed r [] = refl
insert_request-committed r (x ∷ rs) = elim (Bool-cases (leb r.start x.start)) [
  | inl first ↦ rw first
  | inr later ↦ rw (later, insert_request-committed r rs) (grind int_laws)
]

sorted_requests-committed : (rs : List Request) → committed (sorted_requests rs) ≡ committed rs
sorted_requests-committed [] = refl
sorted_requests-committed (r ∷ rs) =
    rw (insert_request-committed r (sorted_requests rs), sorted_requests-committed rs)

sort_requests-committed :
    (region : Region) (rs : List Request) → committed (sort_requests region rs) ≡ committed rs
unfolding sort_requests
sort_requests-committed plain rs = refl
sort_requests-committed (disk start end sector_size) rs = sorted_requests-committed rs

finish-total :
    (ops : Quotients) (uniform : Bool) (c : Chunk) → total (finish ops uniform c) ≡ total c
unfolding finish
finish-total ops uniform c = elim (Bool-cases (eqb_ℤ c.pool (pos 0))) [
  | inl spent ↦ rw spent
  | inr left ↦
      rw left
        (grow_leftover-total ops uniform c.region c.skip_list [] c.requests c.pool ∙ grind int_laws)
]

-- Growing the requests of a chunk moves units between the pool and the requests, and, where it
-- returns, neither loses nor makes one, whatever the quotients computed and however many passes
-- are made: the pool and what all requests hold add up to what they did before.
pub grow_requests-total :
    (ops : Quotients) (uniform : Bool) (passes : ℕ) (c : Chunk) {c' : Chunk}
    → grow_requests ops uniform passes c ≡ ok c'
    → total c' ≡ total c
unfolding grow_requests
grow_requests-total ops uniform passes c h =
    let sorted = record c { requests = sort_requests c.region c.requests } in
    let (grown, run, e) = >>=-eq-ok (grow_passes ops uniform passes sorted (pos 0) c.base) _ h in
    ap total (sym (ok-injective e))
    ∙ finish-total ops uniform grown
    ∙ grow_passes-total ops uniform passes sorted (pos 0) c.base run
    ∙ ap (λ x. c.pool +ℤ x) (sort_requests-committed c.region c.requests)

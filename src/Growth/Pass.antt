-- ===== src/Growth/Pass.antt =====
-- One pass of `grow_requests` of blivet/partitioning.py over requests that are bounded: it takes from the
-- pool what it gives to them, and does not overdraw it.
use native.Mathlib.Nat.{mul-le-mul_right}
use blivet.Prelude.{
  ℕ, ◌+◌, ◌-◌, ◌*◌, ◌≤◌, ◌<◌, ◌≡◌, sym, ap, subst, Bool, true, false, ◌||◌, ok, >>=-eq-ok,
  ok-injective, arith, ℤ, pos, List, [], ◌∷◌, ◌++◌, ◌==◌, Bool-cases, inl, inr, All, All-one_more,
  any, if◌then◌else◌,
}
use blivet.Growth.Chunk.{Request, plain}
use blivet.Growth.Grow.{
  Quotients, Trimmed, grow_request, growth_of, grow_each, remaining, is_skipped,
}
use blivet.Growth.Pool.{
  Sound, Bounded, Taken, RoundsDown, weight, scale, grow_request-Taken, growth_of-le, enough,
}

-- What the requests that a pass grows count for.
abbrev pub counted : Bool → List ℕ → Request → ℕ
counted uniform skip_list r = if r.done || is_skipped skip_list r then 0 else weight uniform r

abbrev pub open_weight : Bool → List ℕ → List Request → ℕ
open_weight uniform skip_list [] = 0
open_weight uniform skip_list (r ∷ rs) =
    counted uniform skip_list r + open_weight uniform skip_list rs

open_weight_one_more :
    (u : Bool) (skip : List ℕ) (rs : List Request) (r : Request)
    → open_weight u skip (rs ++ r ∷ []) ≡ open_weight u skip rs + counted u skip r
open_weight_one_more u skip [] r = omega arith
open_weight_one_more u skip (x ∷ rs) r = omega (arith, open_weight_one_more u skip rs r)

-- At most one is counted for each request that is not done.
open_weight-remaining :
    (skip : List ℕ) (rs : List Request) → open_weight true skip rs ≤ remaining rs
open_weight-remaining skip [] = omega arith
open_weight-remaining skip (r ∷ rs) = ground (arith, open_weight-remaining skip rs)

pub open-Bounded :
    (skip : List ℕ) (r : Request) → Sound r → (r.done || is_skipped skip r) ≡ false → Bounded r
open-Bounded skip r (inl done) h = absurd (ground (arith, done))
open-Bounded skip r (inr bounded) h = bounded

-- What a pass leaves.
pub record Pass (skip : List ℕ) (q : ℕ) (rs : List Request) (pool base : ℤ) : Type 0 where
  pub left : ℕ
  pub new_base : ℕ
  pub same_pool : pool ≡ pos left
  pub same_base : base ≡ pos new_base
  pub not_less : left ≤ q
  pub sound : All Sound rs
  pub low : open_weight false skip rs ≤ new_base

Pass-of_less :
    (skip : List ℕ) (q q' : ℕ) {rs : List Request} {pool base : ℤ}
    → q ≤ q'
    → Pass skip q rs pool base
    → Pass skip q' rs pool base
Pass-of_less skip q q' le pass = record {
  left = pass.left;
  new_base = pass.new_base;
  same_pool = pass.same_pool;
  same_base = pass.same_base;
  not_less = omega (arith, pass.not_less);
  sound = pass.sound;
  low = pass.low;
}

counted-settled :
    (skip : List ℕ) (r : Request) (t : Trimmed) (k q base rest : ℕ)
    → Taken r k q base t
    → (r.done || is_skipped skip r) ≡ false
    → r.base + rest ≤ base
    → (base' : ℕ) × (t.base ≡ pos base') × (counted false skip t.request + rest ≤ base')
counted-settled skip r t k q base rest taken grows fits =
    let same : is_skipped skip t.request ≡ is_skipped skip r =
      ap (λ x. any (λ i. i == x) skip) taken.same_id in
    elim taken.settles [
      | inl (open_still, e) ↦ (base, e, rw (open_still, same, grows, taken.same_base) fits)
      | inr (closed, e) ↦ (base - r.base, e, rw closed (omega arith))
    ]

-- What the first pass grows counts for no more than it is measured by.
pub first_fits :
    (uniform : Bool) (skip : List ℕ) (rs : List Request) (base q : ℕ)
    → open_weight false skip rs ≤ base
    → open_weight uniform skip rs * q ≤ scale uniform (remaining rs) base * q
first_fits true skip rs base q low = mul-le-mul_right q (open_weight-remaining skip rs)
first_fits false skip rs base q low = mul-le-mul_right q low

module _ (ops : Quotients) (rounds : RoundsDown ops) (uniform : Bool) (skip : List ℕ) where
  pub grow_each-Pass :
      (n total last : ℕ) (before after : List Request) (q base : ℕ) {rs : List Request} {p b : ℤ}
      → 0 < n
      → All Sound before
      → All Sound after
      → open_weight false skip before + open_weight false skip after ≤ base
      → open_weight uniform skip after * last ≤ scale uniform n total * q
      → grow_each ops uniform plain skip n (pos total) (pos last) before after (pos q) (pos base)
        ≡ ok (rs, p, b)
      → Pass skip q rs p b
  unfolding grow_each
  grow_each-Pass n total last before [] q base some hb ha low fits h =
      let e = ok-injective h in
      record {
        left = q;
        new_base = base;
        same_pool = sym (ap (λ x. x.1) e);
        same_base = sym (ap (λ x. x.2) e);
        not_less = omega arith;
        sound = subst (λ xs. All Sound xs) (ap (λ x. x.0) e) hb;
        low = subst (λ xs. open_weight false skip xs ≤ base) (ap (λ x. x.0) e) (omega arith);
      }
  grow_each-Pass n total last before (r ∷ after) q base some hb ha low fits h =
      elim (Bool-cases (r.done || is_skipped skip r)) [
        | inl passed ↦
            grow_each-Pass n total last (before ++ r ∷ []) after q base some
              (All-one_more Sound before r hb ha.0) ha.1
              (rw (open_weight_one_more false skip before r) (omega arith))
              (grind (arith, rw passed at fits)) (rw passed at h)
        | inr grows ↦
            let (growth, grew, rest) =
              >>=-eq-ok (growth_of ops uniform plain skip n (pos total) (pos last) r) _
                (rw grows at h) in
            let (k, e, le, positive) =
              growth_of-le ops uniform skip n total last r growth rounds some grew in
            let s = scale uniform n total in
            let w = weight uniform r in
            let others = open_weight uniform skip after in
            let whole : (w + others) * last ≤ s * q = rw grows at fits in
            let low' : open_weight false skip before + (r.base + open_weight false skip after)
                ≤ base =
              rw grows at low in
            let (within, _) = enough k s w others last q q positive le whole (omega arith) in
            let t = grow_request plain before r after (pos k) (pos q) (pos base) in
            let taken : Taken r k q base t =
              grow_request-Taken before after r k q base (open-Bounded skip r ha.0 grows) within
                (omega arith) in
            let (_, left_enough) =
              enough k s w others last q taken.left positive le whole taken.not_more in
            let (base', same_base, fit) =
              counted-settled skip r t k q base
                (open_weight false skip before + open_weight false skip after) taken grows
                (omega arith) in
            Pass-of_less skip taken.left q taken.not_less (
              grow_each-Pass n total last (before ++ t.request ∷ []) after taken.left base' some
                (All-one_more Sound before t.request hb taken.sound) ha.1
                (rw (open_weight_one_more false skip before t.request) (omega arith)) left_enough
                (rw (e, taken.pool, same_base) at rest))
      ]

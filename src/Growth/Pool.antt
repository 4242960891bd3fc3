-- ===== src/Growth/Pool.antt =====
-- What a request of a chunk takes from the pool, in `grow_requests` of blivet/partitioning.py, as
-- natural numbers: the pool is not overdrawn.
use native.Mathlib.Nat.{mul-le-mul_left, le_of_mul-le-mul_left}
use blivet.Prelude.{
  ℕ, zero, suc, ◌+◌, ◌-◌, ◌*◌, ◌≤◌, ◌<◌, ◌≡◌, refl, ap, sym, ◌∙◌, ok-injective, subst, Bool, true,
  false, ok, arith, ℤ, pos, ◌+ℤ◌, ◌-ℤ◌, pos-sub, eqb_ℤ, leb_ℤ, List, Bool-cases, inl, inr, ◌⊎◌,
}
use blivet.Growth.Chunk.{Request, plain, max_growth}
use blivet.Growth.Grow.{
  Quotients, Trimmed, trim_to, grow_request, growth_of, trim_over_grown_request,
}

-- A request has not grown beyond its largest growth; 0 stands for none.
abbrev pub Bounded : Request → Type 0
Bounded r =
    (w : ℕ) × (limit : ℕ) × (r.growth ≡ pos w)
    × (r.max_growth ≡ pos limit)
    × ((limit ≡ 0) ⊎ (w ≤ limit))

-- A request that is not done has not.
abbrev pub Sound : Request → Type 0
Sound r = (r.done ≡ true) ⊎ Bounded r

-- What is open stays open with the base as it was, or is done and leaves the base.
abbrev pub Settles : Request → Trimmed → ℕ → Type 0
Settles r t base =
    ((t.request.done ≡ r.done) × (t.base ≡ pos base))
    ⊎ ((t.request.done ≡ true) × (t.base ≡ pos (base - r.base)))

pub record Taken (r : Request) (k q base : ℕ) (t : Trimmed) : Type 0 where
  pub left : ℕ
  pub pool : t.pool ≡ pos left
  pub not_more : q ≤ left + k
  pub not_less : left ≤ q
  pub sound : Sound t.request
  pub settles : Settles r t base
  pub same_base : t.request.base ≡ r.base
  pub same_id : t.request.id ≡ r.id

pos-add : (a b : ℕ) → pos a +ℤ pos b ≡ pos (a + b)
unfolding ◌+ℤ◌
pos-add a b = ground arith

trim_to-Taken :
    (r : Request) (w limit k q base : ℕ)
    → r.growth ≡ pos w
    → r.max_growth ≡ pos limit
    → (limit ≡ 0) ⊎ (w ≤ limit)
    → k ≤ q
    → r.base ≤ base
    → Taken r k q base
        (trim_to (pos limit) (record r { growth = pos (w + k) }) (pos (q - k)) (pos base))
trim_to-Taken r w zero k q base g m s le lb = record {
  left = q - k;
  pool = refl;
  not_more = omega arith;
  not_less = omega arith;
  sound = inr (w + k, 0, refl, m, inl refl);
  settles = inl (refl, refl);
  same_base = refl;
  same_id = refl;
}
trim_to-Taken r w (suc limit) k q base g m s le lb =
    elim (Bool-cases (leb_ℤ (pos (suc limit)) (pos (w + k)))) [
      | inl over ↦
          rw (given, over)
            (record {
              left = q - k + (w + k - suc limit);
              pool =
                  ap (λ x. pos (q - k) +ℤ x) (pos-sub (w + k) (suc limit) (ground arith))
                  ∙ pos-add (q - k) (w + k - suc limit);
              not_more = omega arith;
              not_less = not_above s;
              sound = inl refl;
              settles = inr (refl, pos-sub base r.base lb);
              same_base = refl;
              same_id = refl;
            })
      | inr under ↦
          rw (given, under)
            (record {
              left = q - k;
              pool = refl;
              not_more = omega arith;
              not_less = omega arith;
              sound = inr (w + k, suc limit, refl, m, inr (ground arith));
              settles = inl (refl, refl);
              same_base = refl;
              same_id = refl;
            })
    ]
  where
    given : eqb_ℤ (pos (suc limit)) (pos 0) ≡ false
    given = ground arith

    not_above : (suc limit ≡ 0) ⊎ (w ≤ suc limit) → q - k + (w + k - suc limit) ≤ q
    not_above (inl e) = omega arith
    not_above (inr e) = omega arith

-- A request that receives some units of the pool.
pub grow_request-Taken :
    (before after : List Request) (r : Request) (k q base : ℕ)
    → Bounded r
    → k ≤ q
    → r.base ≤ base
    → Taken r k q base (grow_request plain before r after (pos k) (pos q) (pos base))
unfolding grow_request trim_over_grown_request max_growth
grow_request-Taken before after r k q base (w, limit, g, m, s) le lb =
    let grown : r.growth +ℤ pos k ≡ pos (w + k) = ap (λ x. x +ℤ pos k) g ∙ pos-add w k in
    let trimmed : grow_request plain before r after (pos k) (pos q) (pos base)
        ≡ trim_to (pos limit) (record r { growth = pos (w + k) }) (pos (q - k)) (pos base) =
      ap (λ x. trim_to x (record r { growth = r.growth +ℤ pos k }) (pos q -ℤ pos k) (pos base)) m
      ∙ ap (λ x. trim_to (pos limit) (record r { growth = x }) (pos q -ℤ pos k) (pos base)) grown
      ∙ ap (λ x. trim_to (pos limit) (record r { growth = pos (w + k) }) x (pos base))
          (pos-sub q k le) in
    subst (Taken r k q base) (sym trimmed) (trim_to-Taken r w limit k q base g m s le lb)

-- Where the quotients are rounded down: `Decimal` with its 28 digits, and floats with their 53 bits,
-- do so for sizes in sectors and extents.
pub record RoundsDown (ops : Quotients) : Type 0 where
  pub share_le :
      (base total pool : ℕ) (growth : ℤ)
      → ops.share (pos base) (pos total) (pos pool) ≡ ok growth
      → (k : ℕ) × (growth ≡ pos k) × (k * total ≤ base * pool) × (0 < total)
  pub portion_le :
      (pool n : ℕ) → 0 < n → (k : ℕ) × (ops.portion (pos pool) n ≡ pos k) × (k * n ≤ pool)

-- What a request counts for in a pass, and what the counts are measured by.
abbrev pub weight : Bool → Request → ℕ
weight true r = 1
weight false r = r.base

abbrev pub scale : Bool → ℕ → ℕ → ℕ
scale true n total = n
scale false n total = total

pub growth_of-le :
    (ops : Quotients) (uniform : Bool) (skip_list : List ℕ) (n total pool : ℕ) (r : Request)
    (growth : ℤ)
    → RoundsDown ops
    → 0 < n
    → growth_of ops uniform plain skip_list n (pos total) (pos pool) r ≡ ok growth
    → (k : ℕ) × (growth ≡ pos k)
      × (k * scale uniform n total ≤ weight uniform r * pool)
      × (0 < scale uniform n total)
growth_of-le ops true skip_list n total pool r growth rounds some_open h =
    let (k, e, le) = rounds.portion_le pool n some_open in
    (k, sym (ok-injective h) ∙ e, omega arith, some_open)
growth_of-le ops false skip_list n total pool r growth rounds some_open h =
    rounds.share_le r.base total pool growth h

-- The pool is not overdrawn, and enough is left for the others.
pub enough :
    (k s w rest p q left : ℕ)
    → 0 < s
    → k * s ≤ w * p
    → (w + rest) * p ≤ s * q
    → q ≤ left + k
    → (k ≤ q) × (rest * p ≤ s * left)
enough k s w rest p q left some le fits taken =
    let under : s * k ≤ s * q = grind arith in
    let scaled : s * q ≤ s * (left + k) = mul-le-mul_left s taken in
    (le_of_mul-le-mul_left under some, grind arith)

-- ===== src/LvmGrowth/Before.antt =====
-- The order of volumes that `lv_compare` of blivet/partitioning.py stands for, said of their attributes, and
-- the sort by it.
use blivet.Prelude.{
  ℕ, zero, suc, ◌<◌, ◌≡◌, ◌⊎◌, ◌&&◌, ◌↔◌, refl, sym, ap, ◌∙◌, Bool, true, false, is_true, Option,
  none, some, arith, if◌then◌else◌, inl, inr,
}
use blivet.Volumes.Space.{Volume}
use blivet.Placement.Compare.{
  Sign, more, same, less, opposite, compare_numbers, compare_flags, compare_limits,
}
use blivet.Placement.Antisymmetry.{
  compare_numbers-opposite, compare_flags-opposite, compare_limits-opposite,
}
use blivet.LvmGrowth.Compare.{lv_compare, compare_wishes, first_of, lv_compare-first_of}

-- A wish to grow counts for more than the refusal, and this for more than no wish.
abbrev pub wish : Option Bool → ℕ
wish none = 0
wish (some false) = 1
wish (some true) = 2

-- A limit is higher than another: 0 stands for none, and is the highest.
pub data IsHigher : ℕ → ℕ → Type 0 where
  unlimited : {b : ℕ} → 0 < b → IsHigher 0 b
  larger_limit : {a b : ℕ} → 0 < b → b < a → IsHigher a b

-- The first volume comes before the second.
pub data ComesFirst (p q : Volume) : Type 0 where
  larger : q.size < p.size → ComesFirst p q
  grows_less : p.size ≡ q.size → wish p.req_grow < wish q.req_grow → ComesFirst p q
  higher_limit :
      p.size ≡ q.size
      → p.req_grow ≡ some true
      → q.req_grow ≡ some true
      → IsHigher p.req_max_size q.req_max_size
      → ComesFirst p q

higher : (a b : ℕ) → IsHigher a b → compare_limits a b ≡ less
higher a b (unlimited h) = ground (arith, h)
higher a b (larger_limit h h') = ground (arith, h, h')

compare_limits-IsHigher : (a b : ℕ) → compare_limits a b ≡ less → IsHigher a b
compare_limits-IsHigher zero zero h = cc
compare_limits-IsHigher zero (suc b) h = unlimited (omega arith)
compare_limits-IsHigher (suc a) zero h = absurd (ground (arith, h))
compare_limits-IsHigher (suc a) (suc b) h = larger_limit (omega arith) (ground (arith, h))

compare_flags-less : (a b : Option Bool) → (compare_flags a b ≡ less) ↔ (wish a < wish b)
compare_flags-less none none = ground arith
compare_flags-less none (some true) = ground arith
compare_flags-less none (some false) = ground arith
compare_flags-less (some true) none = ground arith
compare_flags-less (some false) none = ground arith
compare_flags-less (some true) (some true) = ground arith
compare_flags-less (some true) (some false) = ground arith
compare_flags-less (some false) (some true) = ground arith
compare_flags-less (some false) (some false) = ground arith

compare_flags-same : (a b : Option Bool) → (compare_flags a b ≡ same) ↔ (a ≡ b)
compare_flags-same none none = ground arith
compare_flags-same none (some b) = ground arith
compare_flags-same (some a) none = ground arith
compare_flags-same (some true) (some true) = ground arith
compare_flags-same (some true) (some false) = ground arith
compare_flags-same (some false) (some true) = ground arith
compare_flags-same (some false) (some false) = ground arith

number_cases :
    (a b : ℕ)
    → ((b < a) × (compare_numbers a b ≡ more))
      ⊎ ((a ≡ b) × (compare_numbers a b ≡ same))
      ⊎ ((a < b) × (compare_numbers a b ≡ less))
number_cases a b = ground arith

pub Sign-cases : (s : Sign) → (s ≡ less) ⊎ (s ≡ same) ⊎ (s ≡ more)
Sign-cases more = inr (inr refl)
Sign-cases same = inr (inl refl)
Sign-cases less = inl refl

-- Two that want the same differ only where both grow.
wishes-less :
    (p q : Volume)
    → compare_wishes p q ≡ less
    → p.req_grow ≡ q.req_grow
    → (p.req_grow ≡ some true) × (compare_limits p.req_max_size q.req_max_size ≡ less)
wishes-less p q h e = go p.req_grow q.req_grow h e
  where
    go :
        (a b : Option Bool)
        → (if is_true a && is_true b then compare_limits p.req_max_size q.req_max_size else same)
          ≡ less
        → a ≡ b
        → (a ≡ some true) × (compare_limits p.req_max_size q.req_max_size ≡ less)
    go none b k e' = cc
    go (some false) b k e' = cc
    go (some true) none k e' = cc
    go (some true) (some false) k e' = cc
    go (some true) (some true) k e' = (refl, k)

lv_compare→ComesFirst : (p q : Volume) → lv_compare p q ≡ less → ComesFirst p q
lv_compare→ComesFirst p q h =
    let by_criteria = sym (lv_compare-first_of p q) ∙ h in
    elim (number_cases p.size q.size) [
      | inl (gt, e) ↦ larger gt
      | inr (inr (lt, e)) ↦ let clash = rw e at by_criteria in cc
      | inr (inl (eq, e)) ↦ elim (Sign-cases (compare_flags p.req_grow q.req_grow)) [
        | inl f ↦ grows_less eq ((compare_flags-less p.req_grow q.req_grow).0 f)
        | inr (inr f) ↦ let clash = rw (e, f) at by_criteria in cc
        | inr (inl f) ↦
            let alike = (compare_flags-same p.req_grow q.req_grow).0 f in
            let (grows, limits) = wishes-less p q (rw (e, f) at by_criteria) alike in
            higher_limit eq grows (sym alike ∙ grows)
              (compare_limits-IsHigher p.req_max_size q.req_max_size limits)
      ]
    ]

ComesFirst→lv_compare : (p q : Volume) → ComesFirst p q → lv_compare p q ≡ less
ComesFirst→lv_compare p q (larger gt) =
    let e : compare_numbers p.size q.size ≡ more = ground (arith, gt) in
    lv_compare-first_of p q ∙ rw e refl
ComesFirst→lv_compare p q (grows_less eq lt) =
    let e : compare_numbers p.size q.size ≡ same = ground (arith, eq) in
    let f = (compare_flags-less p.req_grow q.req_grow).1 lt in
    lv_compare-first_of p q ∙ rw (e, f) refl
ComesFirst→lv_compare p q (higher_limit eq grows grows' limits) =
    let e : compare_numbers p.size q.size ≡ same = ground (arith, eq) in
    let k = higher p.req_max_size q.req_max_size limits in
    lv_compare-first_of p q ∙ rw (e, grows, grows') k

first_of-opposite : (a b : Sign) → first_of (opposite a) (opposite b) ≡ opposite (first_of a b)
first_of-opposite a b = ground arith

compare_wishes-opposite : (p q : Volume) → compare_wishes p q ≡ opposite (compare_wishes q p)
compare_wishes-opposite p q = ground (arith, compare_limits-opposite p.req_max_size q.req_max_size)

lv_compare-opposite : (p q : Volume) → lv_compare p q ≡ opposite (lv_compare q p)
lv_compare-opposite p q =
    lv_compare-first_of p q
    ∙ (λ i.
        first_of (opposite (compare_numbers-opposite p.size q.size i)) (
          first_of (compare_flags-opposite p.req_grow q.req_grow i)
            (compare_wishes-opposite p q i)))
    ∙ ap (first_of (opposite (opposite (compare_numbers q.size p.size))))
        (first_of-opposite (compare_flags q.req_grow p.req_grow) (compare_wishes q p))
    ∙ first_of-opposite (opposite (compare_numbers q.size p.size))
        (first_of (compare_flags q.req_grow p.req_grow) (compare_wishes q p))
    ∙ ap opposite (sym (lv_compare-first_of q p))

-- `lv_compare` puts a volume first, by -1, exactly where it is larger; or, of two as large, where it
-- wants less to grow, no wish being less than a refusal and this less than a wish; or, of two as large
-- that both grow, where its limit is higher, none being the highest. It puts it last, by 1, exactly
-- where the other comes first in this order.
pub lv_compare-ComesFirst :
    (p q : Volume)
    → ((lv_compare p q ≡ less) ↔ ComesFirst p q) × ((lv_compare p q ≡ more) ↔ ComesFirst q p)
lv_compare-ComesFirst p q = (
  (lv_compare→ComesFirst p q, ComesFirst→lv_compare p q),
  (
    λ h. lv_compare→ComesFirst q p (lv_compare-opposite q p ∙ ap opposite h),
    λ h. lv_compare-opposite p q ∙ ap opposite (ComesFirst→lv_compare q p h),
  ),
)

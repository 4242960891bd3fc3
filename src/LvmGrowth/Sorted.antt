-- ===== src/LvmGrowth/Sorted.antt =====
-- The sort of volumes by `lv_compare` of blivet/partitioning.py.
use blivet.Prelude.{
  ℕ, zero, suc, ◌<◌, ◌≡◌, ◌⊎◌, refl, sym, ap, ◌∙◌, subst, Bool, true, false, Option, none, some,
  List, [], ◌∷◌, All, arith, inl, inr, length, keep,
}
use blivet.Volumes.Space.{Volume}
use blivet.LvmGrowth.Compare.{lv_compare, insert_lv, sort_lvs}
use blivet.LvmGrowth.Before.{
  ComesFirst, larger, grows_less, higher_limit, IsHigher, unlimited, larger_limit, wish, Sign-cases,
  lv_compare-ComesFirst,
}

order_cases : (a b : ℕ) → (a < b) ⊎ (a ≡ b) ⊎ (b < a)
order_cases a b = ground arith

IsHigher-between : (a b c : ℕ) → IsHigher a b → IsHigher a c ⊎ IsHigher c b
IsHigher-between a b zero (unlimited h) = inr (unlimited h)
IsHigher-between a b (suc c) (unlimited h) = inl (unlimited (omega arith))
IsHigher-between a b zero (larger_limit h h') = inr (unlimited h)
IsHigher-between a b (suc c) (larger_limit h h') = elim (order_cases (suc c) a) [
  | inl lower ↦ inl (larger_limit (omega arith) lower)
  | inr (inl e) ↦ inr (larger_limit h (omega arith))
  | inr (inr above) ↦ inr (larger_limit h (omega arith))
]

wish-cases : (a : Option Bool) → (wish a < 2) ⊎ (a ≡ some true)
wish-cases none = inl (omega arith)
wish-cases (some false) = inl (omega arith)
wish-cases (some true) = inr refl

-- Of two volumes as large as a third, one before the other, the third is after the one or before the other.
between-alike :
    (p q r : Volume)
    → ComesFirst p q
    → p.size ≡ r.size
    → r.size ≡ q.size
    → ComesFirst p r ⊎ ComesFirst r q
between-alike p q r (larger h) e e' = absurd (omega arith)
between-alike p q r (grows_less _ lt) e e' =
    elim (order_cases (wish p.req_grow) (wish r.req_grow)) [
      | inl before ↦ inl (grows_less e before)
      | inr (inl alike) ↦ inr (grows_less e' (omega arith))
      | inr (inr after) ↦ inr (grows_less e' (omega arith))
    ]
between-alike p q r (higher_limit _ grows grows' limits) e e' = elim (wish-cases r.req_grow) [
  | inl smaller ↦ inr (grows_less e' (rw grows' smaller))
  | inr wants ↦ elim (IsHigher-between p.req_max_size q.req_max_size r.req_max_size limits) [
    | inl h ↦ inl (higher_limit e grows wants h)
    | inr h ↦ inr (higher_limit e' wants grows' h)
  ]
]

ComesFirst-size : (p q : Volume) → ComesFirst p q → (q.size < p.size) ⊎ (p.size ≡ q.size)
ComesFirst-size p q (larger h) = inl h
ComesFirst-size p q (grows_less e _) = inr e
ComesFirst-size p q (higher_limit e _ _ _) = inr e

ComesFirst-between : (p q r : Volume) → ComesFirst p q → ComesFirst p r ⊎ ComesFirst r q
ComesFirst-between p q r h = elim (order_cases p.size r.size) [
  | inl smaller ↦ elim (ComesFirst-size p q h) [
    | inl gt ↦ inr (larger (omega arith))
    | inr e ↦ inr (larger (omega arith))
  ]
  | inr (inr gt) ↦ inl (larger gt)
  | inr (inl e) ↦ elim (ComesFirst-size p q h) [
    | inl gt ↦ inr (larger (omega arith))
    | inr e' ↦ between-alike p q r h e (sym e ∙ e')
  ]
]

-- No volume comes before one that stands ahead of it.
abbrev pub IsInOrder : List Volume → Type 0
IsInOrder [] = Unit
IsInOrder (x ∷ xs) = All (λ (y : Volume). ¬ (ComesFirst y x)) xs × IsInOrder xs

-- A volume is inserted ahead of one that does not come before it, or goes on behind one that it does not
-- come before.
insert_lv_cases :
    (lv x : Volume) (xs : List Volume)
    → (¬ (ComesFirst x lv) × (insert_lv lv (x ∷ xs) ≡ lv ∷ x ∷ xs))
      ⊎ (¬ (ComesFirst lv x) × (insert_lv lv (x ∷ xs) ≡ x ∷ insert_lv lv xs))
insert_lv_cases lv x xs =
    let (before, after) = lv_compare-ComesFirst lv x in
    elim (Sign-cases (lv_compare lv x)) [
      | inl e ↦ inl ((λ h. let clash = sym e ∙ after.1 h in cc), rw (e, insert_lv) refl)
      | inr (inl e) ↦ inl ((λ h. let clash = sym e ∙ after.1 h in cc), rw (e, insert_lv) refl)
      | inr (inr e) ↦ inr ((λ h. let clash = sym e ∙ before.1 h in cc), rw (e, insert_lv) refl)
    ]

All-insert_lv :
    (P : Volume → Type 0) (lv : Volume) (xs : List Volume)
    → P lv
    → All P xs
    → All P (insert_lv lv xs)
All-insert_lv P lv [] p h = (p, tt)
All-insert_lv P lv (x ∷ xs) p (q, h) = elim (insert_lv_cases lv x xs) [
  | inl (_, e) ↦ subst (All P) (sym e) (p, (q, h))
  | inr (_, e) ↦ subst (All P) (sym e) (q, All-insert_lv P lv xs p h)
]

-- What does not come before a volume does not come before one that stands no later.
All-after :
    (lv x : Volume) (xs : List Volume)
    → ¬ (ComesFirst x lv)
    → All (λ (y : Volume). ¬ (ComesFirst y x)) xs
    → All (λ (y : Volume). ¬ (ComesFirst y lv)) xs
All-after lv x [] n h = tt
All-after lv x (y ∷ ys) n (p, h) = (
  λ first. elim (ComesFirst-between y lv x first) [ inl a ↦ p a | inr b ↦ n b ],
  All-after lv x ys n h,
)

insert_lv-IsInOrder : (lv : Volume) (xs : List Volume) → IsInOrder xs → IsInOrder (insert_lv lv xs)
insert_lv-IsInOrder lv [] s = (tt, tt)
insert_lv-IsInOrder lv (x ∷ xs) (ahead, s) = elim (insert_lv_cases lv x xs) [
  | inl (n, e) ↦ subst IsInOrder (sym e) ((n, All-after lv x xs n ahead), (ahead, s))
  | inr (n, e) ↦ subst IsInOrder (sym e) (
    All-insert_lv (λ (y : Volume). ¬ (ComesFirst y x)) lv xs n ahead,
    insert_lv-IsInOrder lv xs s,
  )
]

sort_lvs-IsInOrder : (xs : List Volume) → IsInOrder (sort_lvs xs)
unfolding sort_lvs
sort_lvs-IsInOrder [] = tt
sort_lvs-IsInOrder (x ∷ xs) = insert_lv-IsInOrder x (sort_lvs xs) (sort_lvs-IsInOrder xs)

-- How many volumes of a list pass a test.
abbrev pub count : (Volume → Bool) → List Volume → ℕ
count test xs = length (keep test xs)

count-insert_lv :
    (test : Volume → Bool) (lv : Volume) (xs : List Volume)
    → count test (insert_lv lv xs) ≡ count test (lv ∷ xs)
count-insert_lv test lv [] = refl
count-insert_lv test lv (x ∷ xs) = elim (insert_lv_cases lv x xs) [
  | inl (_, e) ↦ ap (count test) e
  | inr (_, e) ↦ ap (count test) e ∙ ground (arith, count-insert_lv test lv xs)
]

count-sort_lvs :
    (test : Volume → Bool) (xs : List Volume) → count test (sort_lvs xs) ≡ count test xs
unfolding sort_lvs
count-sort_lvs test [] = refl
count-sort_lvs test (x ∷ xs) =
    count-insert_lv test x (sort_lvs xs) ∙ ground (arith, count-sort_lvs test xs)

-- Sorting volumes by `lv_compare` gives a list in which no volume comes before one that stands ahead of
-- it, where a volume comes first if it is larger, or as large and wants less to grow, or as large,
-- growing as well, and with the higher limit; and any test holds of as many volumes as before.
pub sort_lvs-sorts :
    (xs : List Volume)
    → IsInOrder (sort_lvs xs) × ((test : Volume → Bool) → count test (sort_lvs xs) ≡ count test xs)
sort_lvs-sorts xs = (sort_lvs-IsInOrder xs, λ test. count-sort_lvs test xs)

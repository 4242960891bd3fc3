-- ===== src/LvmGrowth/Compare.antt =====
-- `lv_compare` of blivet/partitioning.py, by which the requests of a volume group are sorted.
use blivet.Prelude.{is_true, ◌≡◌, ◌&&◌, arith, ℤ, ◌+ℤ◌, ◌-ℤ◌, if◌then◌else◌, List, [], ◌∷◌}
use blivet.Volumes.Space.{Volume}
use blivet.Placement.Compare.{
  Sign, more, same, less, opposite, times, compare_numbers, compare_flags, compare_limits, sign_of,
}

abbrev pub compare_wishes : Volume → Volume → Sign
compare_wishes p q =
    if is_true p.req_grow && is_true q.req_grow
    then compare_limits p.req_max_size q.req_max_size
    else same

-- The sum of what the criteria count for.
abbrev pub weighed : Sign → Sign → Sign → ℤ
weighed by_size by_grow by_limit = times by_size 100 +ℤ times by_grow 50 +ℤ times by_limit 25

unfoldable pub lv_compare : Volume → Volume → Sign
lv_compare p q = sign_of (
    weighed (opposite (compare_numbers p.size q.size)) (compare_flags p.req_grow q.req_grow)
      (compare_wishes p q))

-- The stable sort by this comparison.
abbrev pub insert_lv : Volume → List Volume → List Volume
insert_lv lv [] = lv ∷ []
insert_lv lv (x ∷ xs) = elim (lv_compare lv x) [
  | more ↦ x ∷ insert_lv lv xs
  | same ↦ lv ∷ x ∷ xs
  | less ↦ lv ∷ x ∷ xs
]

unfoldable pub sort_lvs : List Volume → List Volume
sort_lvs [] = []
sort_lvs (x ∷ xs) = insert_lv x (sort_lvs xs)

-- The first criterion that tells two volumes apart.
abbrev pub first_of : Sign → Sign → Sign
first_of more rest = more
first_of same rest = rest
first_of less rest = less

weighed-first_of : (a b c : Sign) → sign_of (weighed a b c) ≡ first_of a (first_of b c)
unfolding ◌+ℤ◌ ◌-ℤ◌
weighed-first_of a b c = ground arith

-- The sum of the weights decides as the criteria do one after the other.
pub lv_compare-first_of :
    (p q : Volume)
    → lv_compare p q
      ≡ first_of
          (opposite (compare_numbers p.size q.size))
          (first_of (compare_flags p.req_grow q.req_grow) (compare_wishes p q))
unfolding lv_compare
lv_compare-first_of p q =
    weighed-first_of (opposite (compare_numbers p.size q.size))
      (compare_flags p.req_grow q.req_grow) (compare_wishes p q)

-- ===== src/DeviceTree/Removal.antt =====
-- The rounds of `recursive_remove` of blivet/devicetree.py, without actions: each removes the leaves among the
-- devices that are left.
use blivet.Prelude.{
  ℕ, zero, suc, ◌+◌, ◌≤◌, ◌<◌, ◌≡◌, refl, ap, subst, Bool, true, false, ◌&&◌, not, ok, List, [],
  ◌∷◌, length, arith, ◌==◌, elem, elem-keep, keep, without, elem-without, IsDistinct,
  IsDistinct-without, inl, inr, Bool-cases, ==_iff, ==_refl, subst,
}
use blivet.DeviceTree.Store.{DeviceTree, is_leaf}
use blivet.DeviceTree.Hidden.{Falls}
use blivet.DeviceTree.Remove.{remove_leaves, remove_rounds}
use blivet.DeviceTree.Removed.{
  IsIntact, IsLess, IsLess-refl, IsLess-trans, is_leaf-IsLess, remove_leaf-IsLess,
}

length-without : (x : ℕ) (xs : List ℕ) → elem x xs ≡ true → suc (length (without x xs)) ≡ length xs
length-without x [] h = cc
length-without x (y ∷ ys) h = elim (Bool-cases (y == x)) [
  | inl here ↦ rw here refl
  | inr past ↦ rw past (ap suc (length-without x ys (ground (arith, past, ==_iff x y, ==_iff y x))))
]

pub IsDistinct-keep : (test : ℕ → Bool) (xs : List ℕ) → IsDistinct xs → IsDistinct (keep test xs)
IsDistinct-keep test [] d = tt
IsDistinct-keep test (x ∷ xs) d = elim (Bool-cases (test x)) [
  | inl kept ↦ rw kept (ground (arith, elem-keep test xs x), IsDistinct-keep test xs d.1)
  | inr dropped ↦ rw dropped (IsDistinct-keep test xs d.1)
]

-- The devices of a list that are left after some of them.
record IsLeft (ds ls left : List ℕ) : Type 0 where
  distinct : IsDistinct left
  members : (j : ℕ) → elem j left ≡ (elem j ds && not (elem j ls))
  count : length left + length ls ≡ length ds

-- The leaves of a list can be removed one after the other.
remove_leaves-IsLess :
    (modparent : Bool) (ls : List ℕ) (t : DeviceTree) (ds : List ℕ)
    → IsIntact t
    → IsDistinct ls
    → IsDistinct ds
    → ((l : ℕ)
        → elem l ls ≡ true
        → (elem l t.devices ≡ true) × (is_leaf t l ≡ true) × (elem l ds ≡ true))
    → (t' : DeviceTree) × (left : List ℕ) × (remove_leaves modparent ls t ds ≡ ok (t', left))
      × IsLess t ls t'
      × IsLeft ds ls left
unfolding remove_leaves
remove_leaves-IsLess modparent [] t ds intact dl dd ready = (
  t,
  ds,
  refl,
  IsLess-refl t intact,
  record { distinct = dd; members = λ j. ground arith; count = omega arith },
)
remove_leaves-IsLess modparent (l ∷ ls) t ds intact (new, dl) dd ready =
    let (there, leaf, listed) = ready l (ground (arith, ==_refl l)) in
    let (t1, one, first) = remove_leaf-IsLess modparent t l intact there leaf in
    let others : (j : ℕ) → elem j ls ≡ true → (j == l) ≡ false = λ j h. elim (Bool-cases (j == l)) [
      | inr other ↦ other
      | inl same ↦ let e = subst (λ x. elem x ls ≡ true) ((==_iff j l).0 same) h in cc
    ] in
    let (t2, left, rest, less, is_left) =
      remove_leaves-IsLess modparent ls t1 (without l ds) first.intact dl
        (IsDistinct-without l ds dd)
        (λ j h.
          let (there', leaf', listed') = ready j (ground (arith, h)) in
          let apart = others j h in
          (
            ground (arith, first.present j, there', apart),
            is_leaf-IsLess first j leaf',
            ground (arith, elem-without j l ds dd, listed', apart),
          )) in
    (
      t2,
      left,
      rw (one, listed) rest,
      IsLess-trans (l ∷ ls) (λ j. ground arith) first less,
      record {
        distinct = is_left.distinct;
        members = λ j. ground (arith, is_left.members j, elem-without j l ds dd);
        count = omega (arith, is_left.count, length-without l ds listed);
      },
    )

-- A device with a child is no leaf.
inner-child :
    (t : DeviceTree) (d : ℕ) → is_leaf t d ≡ false → (c : ℕ) × (elem c (t.node d).children ≡ true)
inner-child t d h = go (t.node d).children h
  where
    go :
        (xs : List ℕ)
        → elim xs as (λ _. Bool) [ [] ↦ true | _ ∷ _ ↦ false ] ≡ false
        → (c : ℕ) × (elem c xs ≡ true)
    go [] e = cc
    go (x ∷ xs) e = (x, ground (arith, ==_refl x))

-- The children of the devices of a list are in it.
abbrev pub Closed : DeviceTree → List ℕ → Type 0
Closed t ds = (p c : ℕ) → elem p ds ≡ true → elem c (t.node p).children ≡ true → elem c ds ≡ true

-- Where levels fall, a list with a device has a leaf.
some_leaf :
    (t : DeviceTree) (ds : List ℕ) (level : ℕ → ℕ)
    → Falls t level
    → Closed t ds
    → (n d : ℕ) → level d < n
    → elem d ds ≡ true
    → (l : ℕ) × (elem l (keep (is_leaf t) ds) ≡ true)
some_leaf t ds level falls closed zero d low h = elim low [ ]
some_leaf t ds level falls closed (suc n) d low h = elim (Bool-cases (is_leaf t d)) [
  | inl leaf ↦ (d, ground (arith, elem-keep (is_leaf t) ds d))
  | inr inner ↦
      let (c, child) = inner-child t d inner in
      some_leaf t ds level falls closed n c (omega (arith, falls d c child)) (closed d c h child)
]

length-some : (x : ℕ) (xs : List ℕ) → elem x xs ≡ true → 0 < length xs
length-some x [] h = cc
length-some x (y ∷ ys) h = omega arith

-- As many rounds as there are devices are enough.
pub remove_rounds-IsLess :
    (modparent : Bool) (level : ℕ → ℕ) (rounds : ℕ) (t : DeviceTree) (ds : List ℕ)
    → IsIntact t
    → Falls t level
    → IsDistinct ds
    → ((d : ℕ) → elem d ds ≡ true → elem d t.devices ≡ true)
    → Closed t ds
    → length ds ≤ rounds
    → (t' : DeviceTree) × (remove_rounds modparent rounds t ds ≡ ok t') × IsLess t ds t'
unfolding remove_rounds
remove_rounds-IsLess modparent level rounds t [] intact falls distinct inside closed enough =
    (t, refl, IsLess-refl t intact)
remove_rounds-IsLess modparent level zero t (d ∷ ds) intact falls distinct inside closed enough =
    absurd (omega arith)
remove_rounds-IsLess modparent level (suc rounds) t (d ∷ ds) intact falls distinct inside closed
      enough =
    let all = d ∷ ds in
    let ls = keep (is_leaf t) all in
    let leaf_of : (l : ℕ) → elem l ls ≡ (elem l all && is_leaf t l) = elem-keep (is_leaf t) all in
    let (l, some) =
      some_leaf t all level falls closed (suc (level d)) d (omega arith)
        (ground (arith, ==_refl d)) in
    let (t1, left, one, less, is_left) =
      remove_leaves-IsLess modparent ls t all intact (IsDistinct-keep (is_leaf t) all distinct)
        distinct
        (λ j h.
          let member : elem j all ≡ true = ground (arith, leaf_of j) in
          (inside j member, ground (arith, leaf_of j), member)) in
    let (t2, rest, less') =
      remove_rounds-IsLess modparent level rounds t1 left less.intact
        (λ p j h. falls p j (less.fewer_children p j h)) is_left.distinct
        (λ j h. ground (arith, less.present j, is_left.members j, inside j))
        (λ p c h child.
          let was = less.fewer_children p c child in
          let still = less.intact.children_in p c child in
          ground (arith, less.present c, is_left.members c, is_left.members p, closed p c))
        (omega (arith, is_left.count, length-some l ls some)) in
    (
      t2,
      rw one rest,
      IsLess-trans all (λ j. ground (arith, is_left.members j, leaf_of j)) less less',
    )

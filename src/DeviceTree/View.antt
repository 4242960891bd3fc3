-- ===== src/DeviceTree/View.antt =====
-- An abstract view of a device tree: which devices it has, and which are linked, without the order in
-- which they are listed; and what `_add_device` and `_remove_device` of blivet/devicetree.py do to it.
use blivet.Prelude.{
  ℕ, ◌≡◌, ap, Bool, true, false, ◌&&◌, ◌||◌, not, ◌==◌, arith, elem, IsDistinct, inl, inr,
  Bool-cases, ==_iff,
}
use blivet.DeviceTree.Store.{DeviceTree}

pub record View : Type 0 where
  pub present : ℕ → Bool
  -- whether the second is a parent of the first
  pub parent : ℕ → ℕ → Bool
  -- whether the second is accounted for as a child of the first
  pub child : ℕ → ℕ → Bool

unfoldable pub view : DeviceTree → View
view t = record {
  present = λ d. elem d t.devices;
  parent = λ d p. elem p (t.node d).parents;
  child = λ p d. elem d (t.node p).children;
}

pub view-≡ :
    {v w : View}
    → ((j : ℕ) → v.present j ≡ w.present j)
    → ((j p : ℕ) → v.parent j p ≡ w.parent j p)
    → ((p j : ℕ) → v.child p j ≡ w.child p j)
    → v ≡ w
view-≡ present parent child = λ i. record {
  present = λ j. present j i;
  parent = λ j p. parent j p i;
  child = λ p j. child p j i;
}

-- A device leaves the tree, and is no longer a child of its parents.
unfoldable pub detach : ℕ → View → View
detach d v = record v {
  present = λ j. v.present j && not (j == d);
  child = λ p j. v.child p j && not (v.parent d p && j == d);
}

-- A device enters the tree, and is a child of its parents.
unfoldable pub attach : ℕ → View → View
attach d v = record v {
  present = λ j. v.present j || j == d;
  child = λ p j. v.child p j || (v.parent d p && j == d);
}

-- The tree has the parents of its devices, the parents know these as children, and a child of a device
-- has it as a parent.
pub record IsLinked (v : View) : Type 0 where
  pub parents_in : (d p : ℕ) → v.present d ≡ true → v.parent d p ≡ true → v.present p ≡ true
  pub known : (d p : ℕ) → v.present d ≡ true → v.parent d p ≡ true → v.child p d ≡ true
  pub child_of : (d p : ℕ) → v.child p d ≡ true → v.parent d p ≡ true

-- No list of the tree has a device twice.
pub record HasNoCopies (t : DeviceTree) : Type 0 where
  pub devices_distinct : IsDistinct t.devices
  pub parents_distinct : (d : ℕ) → IsDistinct (t.node d).parents
  pub children_distinct : (d : ℕ) → IsDistinct (t.node d).children

pub detach-IsLinked :
    (d : ℕ) (v : View) → IsLinked v → ((j : ℕ) → v.child d j ≡ false) → IsLinked (detach d v)
unfolding detach
detach-IsLinked d v l leaf = record {
  parents_in = λ j p h h'. elim (Bool-cases (p == d)) [
    | inl same ↦
        let e = (==_iff p d).0 same in let k = l.known j p (ground arith) h' in let n = leaf j in cc
    | inr other ↦ ground (arith, l.parents_in j p, other)
  ];
  known = λ j p h h'. ground (arith, l.known j p);
  child_of = λ j p h. ground (arith, l.child_of j p);
}

pub attach-IsLinked :
    (d : ℕ) (v : View)
    → IsLinked v
    → ((p : ℕ) → v.parent d p ≡ true → v.present p ≡ true)
    → IsLinked (attach d v)
unfolding attach
attach-IsLinked d v l there = record {
  parents_in = λ j p h h'. elim (Bool-cases (j == d)) [
    | inl same ↦
        let q : v.parent j p ≡ v.parent d p = ap (λ x. v.parent x p) ((==_iff j d).0 same) in
        ground (arith, there p, q)
    | inr other ↦ ground (arith, l.parents_in j p, other)
  ];
  known = λ j p h h'. elim (Bool-cases (j == d)) [
    | inl same ↦
        let q : v.parent j p ≡ v.parent d p = ap (λ x. v.parent x p) ((==_iff j d).0 same) in
        ground (arith, q, same)
    | inr other ↦ ground (arith, l.known j p, other)
  ];
  child_of = λ j p h. elim (Bool-cases (j == d)) [
    | inl same ↦
        let q : v.parent j p ≡ v.parent d p = ap (λ x. v.parent x p) ((==_iff j d).0 same) in
        ground (arith, l.child_of j p, q, same)
    | inr other ↦ ground (arith, l.child_of j p, other)
  ];
}

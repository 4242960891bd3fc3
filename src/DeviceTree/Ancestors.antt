-- ===== src/DeviceTree/Ancestors.antt =====
-- `Device.depends_on` of blivet/devices/device.py and `get_dependent_devices` of blivet/devicetree.py,
-- against reachability along parents.
use blivet.Prelude.{
  ℕ, suc, zero, ◌≤◌, ◌<◌, ◌≡◌, refl, true, false, arith, elem, elem-any, any-elem, elem→any,
  elem-keep, inl, inr, Bool-cases, ◌↔◌,
}
use blivet.DeviceTree.Store.{DeviceTree, is_leaf, depends_on}
use blivet.DeviceTree.Register.{get_dependent_devices}
use blivet.DeviceTree.View.{view, IsLinked}
use blivet.DeviceTree.Changed.{is_leaf-child}

-- A device is above another, along parents.
pub data Ancestor (t : DeviceTree) : ℕ → ℕ → Type 0 where
  parent : {d p : ℕ} → elem p (t.node d).parents ≡ true → Ancestor t d p
  above : {d p a : ℕ} → elem p (t.node d).parents ≡ true → Ancestor t p a → Ancestor t d a

-- A rank falls from a device to its parents, so no device is above itself.
abbrev pub IsAcyclic : DeviceTree → (ℕ → ℕ) → Type 0
IsAcyclic t rank = (d p : ℕ) → elem p (t.node d).parents ≡ true → rank p < rank d

pub depends_on→Ancestor :
    (depth : ℕ) (t : DeviceTree) (d a : ℕ) → depends_on depth t d a ≡ true → Ancestor t d a
unfolding depends_on
depends_on→Ancestor zero t d a h = cc
depends_on→Ancestor (suc depth) t d a h = elim (Bool-cases (elem a (t.node d).parents)) [
  | inl here ↦ parent here
  | inr far ↦
      let (p, hp, hq) =
        any-elem (λ p. depends_on depth t p a) (t.node d).parents (ground (arith, far)) in
      above hp (depends_on→Ancestor depth t p a hq)
]

pub Ancestor→depends_on :
    (t : DeviceTree) (rank : ℕ → ℕ)
    → IsAcyclic t rank
    → {d a : ℕ} → Ancestor t d a
    → (depth : ℕ) → rank d ≤ depth
    → depends_on depth t d a ≡ true
unfolding depends_on
Ancestor→depends_on t rank falls {d} (parent {p = p} h) zero le = ground (arith, falls d p h)
Ancestor→depends_on t rank falls {d} (above {p = p} h up) zero le = ground (arith, falls d p h)
Ancestor→depends_on t rank falls (parent h) (suc depth) le = rw h refl
Ancestor→depends_on t rank falls {d} {a} (above {p = p} h up) (suc depth) le =
    let there =
      elem→any (λ x. depends_on depth t x a) (t.node d).parents p h
        (Ancestor→depends_on t rank falls up depth (omega (arith, falls d p h))) in
    ground (arith, there)

-- The devices of the tree do not depend on a leaf.
leaf-no_dependents :
    (depth : ℕ) (t : DeviceTree) (a : ℕ)
    → IsLinked (view t)
    → is_leaf t a ≡ true
    → (d : ℕ) → elem d t.devices ≡ true
    → depends_on depth t d a ≡ false
unfolding depends_on view
leaf-no_dependents zero t a l leaf d h = refl
leaf-no_dependents (suc depth) t a l leaf d h =
    let above =
      elem-any (λ p. depends_on depth t p a) (t.node d).parents
        (λ p hp. leaf-no_dependents depth t a l leaf p (l.parents_in d p h hp)) in
    ground (arith, above, l.known d a h, is_leaf-child t a leaf d)

-- `depends_on` is true of the ancestors of a device and of no other, to a depth that is at least the
-- rank of the device, in a store where ranks fall along parents.
pub depends_on-IsAncestor :
    (t : DeviceTree) (rank : ℕ → ℕ) (depth d a : ℕ)
    → IsAcyclic t rank
    → rank d ≤ depth
    → (depends_on depth t d a ≡ true) ↔ Ancestor t d a
depends_on-IsAncestor t rank depth d a falls le =
    (depends_on→Ancestor depth t d a, λ up. Ancestor→depends_on t rank falls up depth le)

-- Where links are in order, and ranks fall along parents and do not exceed the depth,
-- `get_dependent_devices` lists the devices of the tree that a device is above, and no other, also
-- where it does not search because the device is a leaf.
pub get_dependent_devices-Ancestor :
    (t : DeviceTree) (rank : ℕ → ℕ) (depth dep d : ℕ)
    → IsLinked (view t)
    → IsAcyclic t rank
    → ((j : ℕ) → elem j t.devices ≡ true → rank j ≤ depth)
    → (elem d (get_dependent_devices depth t dep) ≡ true)
      ↔ ((elem d t.devices ≡ true) × Ancestor t d dep)
unfolding get_dependent_devices
get_dependent_devices-Ancestor t rank depth dep d l falls low = elim (Bool-cases (is_leaf t dep)) [
  | inl leaf ↦ rw leaf (
    λ h. cc,
    λ h.
        let none_above = leaf-no_dependents depth t dep l leaf d h.0 in
        let up = Ancestor→depends_on t rank falls h.1 depth (low d h.0) in cc,
  )
  | inr inner ↦
      rw (inner, elem-keep (λ x. depends_on depth t x dep) t.devices d)
        (
          λ h. (ground arith, depends_on→Ancestor depth t d dep (ground arith)),
          λ h. rw (h.0, Ancestor→depends_on t rank falls h.1 depth (low d h.0)) refl,
        )
]

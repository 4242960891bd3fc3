-- ===== src/DeviceTree/Links.antt =====
-- What the hooks of a device and of its parents do to the links between devices: the loops of
-- `add_hook` and `remove_hook`, and the setter of `parents`, as one change of each object.
use blivet.Prelude.{
  ℕ, ◌≡◌, refl, ap, Bool, true, false, ok, List, [], ◌∷◌, ◌++◌, ◌==◌, arith, if◌then◌else◌, elem,
  IsDistinct, without, inl, inr, Bool-cases, ==_iff, ==_refl, fun_ext,
}
use blivet.DeviceTree.Store.{
  Node, DeviceTree, set_node, add_child, remove_child, add_hook, remove_hook,
}

-- The children of the devices of a list, changed in the same way.
unfoldable pub change_children : (List ℕ → List ℕ) → List ℕ → DeviceTree → DeviceTree
change_children f ps t = record t {
  node = λ j. let n = t.node j in if elem j ps then record n { children = f n.children } else n;
}

change_one : (List ℕ → List ℕ) → ℕ → DeviceTree → DeviceTree
change_one f p t = set_node t p (record (t.node p) { children = f (t.node p).children })

node-change_one :
    (f : List ℕ → List ℕ) (p : ℕ) (t : DeviceTree) (j : ℕ)
    → (j == p) ≡ false
    → (change_one f p t).node j ≡ t.node j
unfolding change_one
node-change_one f p t j h = rw h refl

node-change_children :
    (f : List ℕ → List ℕ) (p : ℕ) (ps : List ℕ) (t : DeviceTree) (j : ℕ)
    → elem p ps ≡ false
    → (change_children f ps (change_one f p t)).node j ≡ (change_children f (p ∷ ps) t).node j
unfolding change_children change_one
node-change_children f p ps t j d = elim (Bool-cases (j == p)) [
  | inl same ↦ let e = (==_iff j p).0 same in rw (e, d, ==_refl p) refl
  | inr other ↦ rw other refl
]

change_children-cons :
    (f : List ℕ → List ℕ) (p : ℕ) (ps : List ℕ) (t : DeviceTree)
    → elem p ps ≡ false
    → change_children f ps (change_one f p t) ≡ change_children f (p ∷ ps) t
unfolding change_children change_one
change_children-cons f p ps t d =
    ap (λ (node : ℕ → Node). record t { node = node })
      (fun_ext (λ j. node-change_children f p ps t j d))

not_same : (j p : ℕ) (ps : List ℕ) → elem p ps ≡ false → elem j ps ≡ true → (j == p) ≡ false
not_same j p ps h h' = elim (Bool-cases (j == p)) [
  | inl same ↦ let e = (==_iff j p).0 same in cc
  | inr other ↦ other
]

later_children :
    (f : List ℕ → List ℕ) (p device : ℕ) (ps : List ℕ) (t : DeviceTree) (b : Bool)
    → IsDistinct (p ∷ ps)
    → ((p' : ℕ) → elem p' (p ∷ ps) ≡ true → elem device (t.node p').children ≡ b)
    → (p' : ℕ) → elem p' ps ≡ true
    → elem device ((change_one f p t).node p').children ≡ b
later_children f p device ps t b d all p' h =
    rw (node-change_one f p t p' (not_same p' p ps d.0 h)) (all p' (ground arith))

pub remove_hook-ok :
    (ps : List ℕ) (device : ℕ) (t : DeviceTree)
    → IsDistinct ps
    → ((p : ℕ) → elem p ps ≡ true → elem device (t.node p).children ≡ true)
    → remove_hook ps device t ≡ ok (change_children (without device) ps t)
unfolding remove_hook remove_child change_one
remove_hook-ok [] device t d linked = unfold change_children in refl
remove_hook-ok (p ∷ ps) device t d linked =
    rw (linked p (ground arith), ← change_children-cons (without device) p ps t d.0)
      (remove_hook-ok ps device (change_one (without device) p t) d.1
        (later_children (without device) p device ps t true d linked))

abbrev pub snoc : ℕ → List ℕ → List ℕ
snoc x xs = xs ++ x ∷ []

pub add_hook-ok :
    (ps : List ℕ) (device : ℕ) (t : DeviceTree)
    → IsDistinct ps
    → ((p : ℕ) → elem p ps ≡ true → elem device (t.node p).children ≡ false)
    → add_hook ps device t ≡ ok (change_children (snoc device) ps t)
unfolding add_hook add_child change_one
add_hook-ok [] device t d linked = unfold change_children in refl
add_hook-ok (p ∷ ps) device t d linked =
    rw (linked p (ground arith), ← change_children-cons (snoc device) p ps t d.0)
      (add_hook-ok ps device (change_one (snoc device) p t) d.1
        (later_children (snoc device) p device ps t false d linked))

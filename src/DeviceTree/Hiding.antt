-- ===== src/DeviceTree/Hiding.antt =====
-- `hide` of blivet/devicetree.py, where the list of actions is empty: exactly a device and those that depend
-- on it are hidden.
use blivet.Prelude.{
  ℕ, zero, suc, ◌<◌, ◌≡◌, ◌⊎◌, refl, sym, ap, ◌∙◌, subst, Bool, true, false, ◌&&◌, ◌||◌, not,
  Result, ok, ◌>>=◌, List, [], ◌∷◌, ◌++◌, arith, ◌==◌, if◌then◌else◌, elem, elem-snoc, inl, inr,
  Bool-cases, ==_iff, ==_refl,
}
use blivet.Actions.Model.{Action}
use blivet.DeviceTree.Store.{DeviceTree}
use blivet.DeviceTree.Registry.{remove_device}
use blivet.DeviceTree.Session.{Session}
use blivet.DeviceTree.View.{View, view, IsLinked, HasNoCopies, detach}
use blivet.DeviceTree.Changed.{is_leaf-childless}
use blivet.DeviceTree.Refine.{Step, remove_device-refines}
use blivet.DeviceTree.Ancestors.{Ancestor, parent, above}
use blivet.DeviceTree.Hide.{
  children_of, forget_pv, cancel_disk_actions, cancel_each, get_disk_actions, hide_leaf, hide_each,
  hide,
}
use blivet.DeviceTree.Hidden.{
  IsSettled, Shrinks, Shrinks-refl, Shrinks-trans, known-Shrinks, Falls, Ancestor-level,
  Ancestor-same, Ancestor-extend, elem-sort_children,
}
use blivet.DeviceTree.Hiding.Leaf.{
  Below, Below-same, Below-extend, Below-level, Hid, cancels_nothing, hide_leaf-Hid,
}
pub mod Leaf

-- What a call of `hide` is given: a device that the tree has, or that is hidden, with fewer levels below
-- it than the bound.
Ready : (ℕ → ℕ) → ℕ → Session → ℕ → Type 0
Ready level levels s d =
    (s.actions ≡ [])
    × IsSettled s.tree
    × Falls s.tree level
    × ((elem d s.tree.devices || elem d s.tree.hidden) ≡ true)
    × (level d < levels)

-- The devices of a list are hidden one after the other.
HidAll : Session → List ℕ → Result Session → Type 0
HidAll s cs result =
    (s' : Session) × (result ≡ ok s')
    × (s'.actions ≡ [])
    × Shrinks s.tree s'.tree (λ j. (c : ℕ) × (elem c cs ≡ true) × Below s.tree c j)
    × ((c : ℕ) → elem c cs ≡ true → elem c s'.tree.hidden ≡ true)

module _ (apply cancel : Action → Result (Unit {0})) (depth : ℕ) where
  hide_each-HidAll :
      (hide_one : Session → ℕ → Result Session) (level : ℕ → ℕ) (levels : ℕ)
      → ((s : Session) (c : ℕ) → Ready level levels s c → Hid s c (hide_one s c))
      → (cs : List ℕ) (s : Session) → s.actions ≡ []
      → IsSettled s.tree
      → Falls s.tree level
      → ((c : ℕ)
          → elem c cs ≡ true
          → ((elem c s.tree.devices || elem c s.tree.hidden) ≡ true) × (level c < levels))
      → HidAll s cs (hide_each apply cancel depth hide_one cs s)
  unfolding Hid Ready HidAll
  hide_each-HidAll hide_one level levels one [] s empty settled falls ready =
      (s, refl, empty, Shrinks-refl s.tree _ settled, λ c h. cc)
  hide_each-HidAll hide_one level levels one (c ∷ cs) s empty settled falls ready =
      let (known, low) = ready c (ground (arith, ==_refl c)) in
      let (s1, runs, empty1, first, hidden1) = one s c (empty, settled, falls, known, low) in
      let falls1 : Falls s1.tree level = λ p j h. falls p j (first.fewer_children p j h) in
      let (s2, runs2, empty2, rest, hidden2) =
        hide_each-HidAll hide_one level levels one cs s1 empty1 first.settled falls1 (λ c' h.
          let (known', low') = ready c' (ground (arith, h)) in
          (known-Shrinks first c' known', low')) in
      (
        s2,
        rw (runs) runs2,
        empty2,
        Shrinks-trans s.tree s1.tree s2.tree _ _ _ (λ j why. (c, ground (arith, ==_refl c), why))
            (λ j (c', h, why).
              (c', ground (arith, h), Below-same s.tree s1.tree first.same_parents why))
            first rest,
        λ c' h. elim (Bool-cases (c' == c)) [
          | inl same ↦
              rest.still_hidden c'
                (subst (λ x. elem x s1.tree.hidden ≡ true) (sym ((==_iff c' c).0 same)) hidden1)
          | inr other ↦ hidden2 c' (ground (arith, other))
        ],
      )

  hide-Hid :
      (level : ℕ → ℕ) (levels : ℕ) (s : Session) (d : ℕ)
      → Ready level levels s d
      → Hid s d (hide apply cancel depth levels s d)
  unfolding hide Hid Ready HidAll view
  hide-Hid level zero s d (empty, settled, falls, known, low) = elim low [ ]
  hide-Hid level (suc levels) s d (empty, settled, falls, known, low) =
      elim (Bool-cases (elem d s.tree.hidden)) [
        | inl here ↦ (s, rw (here, hide) refl, empty, Shrinks-refl s.tree _ settled, here)
        | inr shown ↦
            let there : elem d s.tree.devices ≡ true = ground (arith, shown) in
            let children : (c : ℕ)
                → elem c (children_of s.tree d) ≡ elem c (s.tree.node d).children =
              λ c. elem-sort_children s.tree c (s.tree.node d).children in
            let nothing : (if (s.tree.node d).is_disk
                  then cancel_disk_actions apply cancel depth s (d ∷ [])
                  else ok s)
                ≡ ok s =
              cancels_nothing apply cancel depth s d empty in
            let (s1, runs, empty1, below, hidden1) =
              hide_each-HidAll (hide apply cancel depth levels) level levels (hide-Hid level levels)
                (children_of s.tree d) s empty settled falls
                (λ c h.
                  let child = sym (children c) ∙ h in
                  (
                    ground (arith, settled.children_in d c child),
                    omega (arith, falls d c child),
                  )) in
            let stays : elem d s1.tree.devices ≡ true = elim (Bool-cases (elem d s1.tree.devices)) [
              | inl still ↦ still
              | inr left ↦
                  let (c, h, why) = below.gone d there left in
                  let low_child = falls d c (sym (children c) ∙ h) in
                  let high_child = Below-level s.tree level settled.linked falls why there in
                  absurd (omega arith)
            ] in
            let leaf : (j : ℕ) → elem j (s1.tree.node d).children ≡ false = λ j.
              elim (Bool-cases (elem j (s1.tree.node d).children)) [
                | inr none_left ↦ none_left
                | inl child ↦
                    let was = hidden1 j (children j ∙ below.fewer_children d j child) in
                    let out = below.settled.apart j was in
                    let in_tree = below.settled.children_in d j child in cc
              ] in
            let (s2, runs2, empty2, last, hidden2) =
              hide_leaf-Hid apply cancel depth s1 d empty1 below.settled stays leaf in
            (
              s2,
              rw (shown, hide, nothing, runs) runs2,
              empty2,
              Shrinks-trans s.tree s1.tree s2.tree _ _ _
                  (λ j (c, h, why).
                    Below-extend s.tree why (settled.linked.child_of c d (sym (children c) ∙ h)))
                  (λ j why. Below-same s.tree s1.tree below.same_parents why) below last,
              hidden2,
            )
      ]

Below-present :
    (t : DeviceTree)
    → IsLinked (view t)
    → {d j : ℕ} → Below t d j
    → elem j t.devices ≡ true
    → elem d t.devices ≡ true
unfolding view
Below-present t l {d} {j} (inl e) there = subst (λ x. elem x t.devices ≡ true) e there
Below-present t l {d} {j} (inr (parent {p = p} h)) there = l.parents_in j p there h
Below-present t l {d} {j} (inr (above {p = p} h up)) there =
    Below-present t l (inr up) (l.parents_in j p there h)

-- Hiding a device of a settled tree, where links are in order, children are in the tree, hidden devices
-- are not, and all devices of it exist, where no action is listed, and where levels fall along children
-- and the level of the device is below the bound: the call returns, and the tree is settled; the device
-- and those that depend on it have left the tree and are hidden, and all other devices are still there.
pub hide-hides :
    (apply cancel : Action → Result (Unit {0})) (depth : ℕ) (level : ℕ → ℕ) (levels : ℕ)
    (s : Session) (d : ℕ)
    → s.actions ≡ []
    → IsSettled s.tree
    → Falls s.tree level
    → elem d s.tree.devices ≡ true
    → level d < levels
    → (s' : Session) × (hide apply cancel depth levels s d ≡ ok s')
      × IsSettled s'.tree
      × ((j : ℕ)
          → elem j s.tree.devices ≡ true
          → Below s.tree d j
          → (elem j s'.tree.devices ≡ false) × (elem j s'.tree.hidden ≡ true))
      × ((j : ℕ)
          → elem j s.tree.devices ≡ true
          → (elem j s'.tree.devices ≡ true) ⊎ Below s.tree d j)
unfolding Hid Ready
hide-hides apply cancel depth level levels s d empty settled falls there low =
    let (s', returns, _, shrinks, hidden) =
      hide-Hid apply cancel depth level levels s d (empty, settled, falls, rw there refl, low) in
    let leaves : (j : ℕ) → Below s.tree d j → elem j s'.tree.devices ≡ false = λ j why.
      elim (Bool-cases (elem j s'.tree.devices)) [
        | inr left ↦ left
        | inl still ↦
            let why' = Below-same s'.tree s.tree (λ i p. sym (shrinks.same_parents i p)) why in
            let up = Below-present s'.tree shrinks.settled.linked why' still in
            let out = shrinks.settled.apart d hidden in cc
      ] in
    (
      s',
      returns,
      shrinks.settled,
      λ j h why. (leaves j why, shrinks.now_hidden j h (leaves j why)),
      λ j h. elim (Bool-cases (elem j s'.tree.devices)) [
        | inl still ↦ inl still
        | inr left ↦ inr (shrinks.gone j h left)
      ],
    )

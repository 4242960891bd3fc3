-- ===== src/DeviceTree/Recursive.antt =====
-- `recursive_remove` of blivet/devicetree.py as a whole, without actions: it ends, and removes exactly the devices
-- that depend on one, and this.
use blivet.Prelude.{
  ℕ, ◌≤◌, ◌≡◌, ◌↔◌, refl, sym, ◌∙◌, Bool, true, false, ◌&&◌, ◌||◌, not, ok, List, ◌∷◌, length,
  arith, ◌==◌, elem, reverse, length-keep-le, IsDistinct, inl, inr, Bool-cases, ==_refl,
}
use blivet.Tsort.Members.{elem-reverse, length-reverse, IsDistinct-reverse}
use blivet.DeviceTree.Store.{DeviceTree, is_leaf, depends_on}
use blivet.DeviceTree.Register.{get_dependent_devices}
use blivet.DeviceTree.View.{view}
use blivet.DeviceTree.Changed.{is_leaf-childless}
use blivet.DeviceTree.Ancestors.{Ancestor, parent, above, IsAcyclic, get_dependent_devices-Ancestor}
use blivet.DeviceTree.Hidden.{Falls, Ancestor-level}
use blivet.DeviceTree.Remove.{clear_format, remove_rounds, recursive_remove}
use blivet.DeviceTree.Removed.{
  IsIntact, IsLess, IsLess-trans, clear_format-IsLess, remove_leaf-IsLess,
}
use blivet.DeviceTree.Removal.{IsDistinct-keep, Closed, remove_rounds-IsLess}

module _ (depth : ℕ) (t : DeviceTree) (d : ℕ) where
  abbrev dependents : List ℕ
  dependents = get_dependent_devices depth t d

  dependents-IsDistinct : IsDistinct t.devices → IsDistinct dependents
  unfolding get_dependent_devices
  dependents-IsDistinct distinct = elim (Bool-cases (is_leaf t d)) [
    | inl leaf ↦ rw leaf tt
    | inr inner ↦ rw inner (IsDistinct-keep (λ j. depends_on depth t j d) t.devices distinct)
  ]

  length-dependents : length dependents ≤ length t.devices
  unfolding get_dependent_devices
  length-dependents = elim (Bool-cases (is_leaf t d)) [
    | inl leaf ↦ rw leaf (omega arith)
    | inr inner ↦ rw inner (length-keep-le (λ j. depends_on depth t j d) t.devices)
  ]

  module _ (level rank : ℕ → ℕ) (intact : IsIntact t) (falls : Falls t level)
      (acyclic : IsAcyclic t rank) (low : (j : ℕ) → elem j t.devices ≡ true → rank j ≤ depth) where
    dependent : (j : ℕ) → (elem j dependents ≡ true) ↔ ((elem j t.devices ≡ true) × Ancestor t j d)
    dependent j = get_dependent_devices-Ancestor t rank depth d j intact.linked acyclic low

    dependents-Closed : Closed t (reverse dependents)
    unfolding view
    dependents-Closed p c h child =
        let (there, up) = (dependent p).0 (sym (elem-reverse p dependents) ∙ h) in
        elem-reverse c dependents
        ∙ (dependent c).1
            (intact.children_in p c child, above (intact.linked.child_of c p child) up)

    -- The dependents leave first.
    rounds-IsLess :
        (modparent : Bool) (rounds : ℕ)
        → length t.devices ≤ rounds
        → (t' : DeviceTree) × (remove_rounds modparent rounds t (reverse dependents) ≡ ok t')
          × IsLess t dependents t'
    rounds-IsLess modparent rounds enough =
        let (t', returns, less) =
          remove_rounds-IsLess modparent level rounds t (reverse dependents) intact falls
            (IsDistinct-reverse dependents
              (dependents-IsDistinct intact.no_copies.devices_distinct))
            (λ j h. ((dependent j).0 (sym (elem-reverse j dependents) ∙ h)).0) dependents-Closed
            (omega (arith, length-reverse dependents, length-dependents)) in
        (
          t',
          returns,
          record {
            intact = less.intact;
            same_parents = less.same_parents;
            fewer_children = less.fewer_children;
            present = λ j. ground (arith, less.present j, elem-reverse j dependents);
          },
        )

    -- Then the device is a leaf.
    device-leaf : (t' : DeviceTree) → IsLess t dependents t' → is_leaf t' d ≡ true
    unfolding view
    device-leaf t' less = is_leaf-childless t' d (λ c.
        elim (Bool-cases (elem c (t'.node d).children)) [
          | inr other ↦ other
          | inl child ↦
              let was = less.fewer_children d c child in
              let up =
                (dependent c).1
                  (intact.children_in d c was, parent (intact.linked.child_of c d was)) in
              let still = less.intact.children_in d c child in
              let gone = less.present c in absurd (ground (arith, gone, still, up))
        ])

    device-independent : elem d t.devices ≡ true → elem d dependents ≡ false
    device-independent there = elim (Bool-cases (elem d dependents)) [
      | inr other ↦ other
      | inl above_itself ↦
          let up = ((dependent d).0 above_itself).1 in
          let less = Ancestor-level t level intact.linked falls up there in absurd (omega arith)
    ]

    gone : Bool → List ℕ
    gone true = d ∷ dependents
    gone false = dependents

    recursive_remove-IsLess :
        (rounds : ℕ) (removes modparent : Bool)
        → elem d t.devices ≡ true
        → length t.devices ≤ rounds
        → (t' : DeviceTree) × (recursive_remove rounds depth t d removes modparent ≡ ok t')
          × IsLess t (gone (removes && not (t.node d).is_disk)) t'
    unfolding recursive_remove gone
    recursive_remove-IsLess rounds removes modparent there enough =
        let (t1, rounds_end, less) = rounds-IsLess modparent rounds enough in
        elim (Bool-cases (removes && not (t.node d).is_disk)) [
          | inr stays ↦ (
            clear_format t1 d,
            rw (rounds_end, stays) refl,
            rw stays (
                IsLess-trans dependents (λ j. ground arith) less
                  (clear_format-IsLess t1 d less.intact)),
          )
          | inl goes ↦
              let there' : elem d t1.devices ≡ true =
                ground (arith, less.present d, device-independent there) in
              let (t2, returns, last) =
                remove_leaf-IsLess modparent t1 d less.intact there' (device-leaf t1 less) in
              (
                t2,
                rw (rounds_end, goes) returns,
                rw goes (IsLess-trans (d ∷ dependents) (λ j. ground arith) less last),
              )
        ]

-- Removing a device of a tree with all that depends on it, without actions and whatever `modparent` is,
-- where links are in order, children are in the tree, levels fall along children, ranks fall along
-- parents and do not exceed the depth, and there are as many rounds as devices: the call returns, with
-- links in order; the devices that depend on it have left the tree; the device itself has left exactly
-- where it was to be removed and is no disk; and every other device is still there.
pub recursive_remove-removes :
    (level rank : ℕ → ℕ) (rounds depth : ℕ) (t : DeviceTree) (d : ℕ) (removes modparent : Bool)
    → IsIntact t
    → Falls t level
    → IsAcyclic t rank
    → ((j : ℕ) → elem j t.devices ≡ true → rank j ≤ depth)
    → elem d t.devices ≡ true
    → length t.devices ≤ rounds
    → (t' : DeviceTree) × (recursive_remove rounds depth t d removes modparent ≡ ok t')
      × IsIntact t'
      × ((j : ℕ) → elem j t.devices ≡ true → Ancestor t j d → elem j t'.devices ≡ false)
      × (elem d t'.devices ≡ not (removes && not (t.node d).is_disk))
      × ((j : ℕ)
          → elem j t.devices ≡ true
          → ¬ (Ancestor t j d)
          → (j == d) ≡ false
          → elem j t'.devices ≡ true)
unfolding gone
recursive_remove-removes level rank rounds depth t d removes modparent intact falls acyclic low
      there enough =
    let (t', returns, less) =
      recursive_remove-IsLess depth t d level rank intact falls acyclic low rounds removes modparent
        there enough in
    let below : (j : ℕ)
        → (elem j (dependents depth t d) ≡ true) ↔ ((elem j t.devices ≡ true) × Ancestor t j d) =
      dependent depth t d level rank intact falls acyclic low in
    let apart = device-independent depth t d level rank intact falls acyclic low there in
    let members : (j : ℕ)
        → elem j t'.devices ≡ (
            elem j t.devices
            && not
                (elem j (dependents depth t d) || (removes && not (t.node d).is_disk && j == d))) =
      λ j. elim (Bool-cases (removes && not (t.node d).is_disk)) [
        | inl goes ↦ ground (arith, goes, less.present j)
        | inr stays ↦ ground (arith, stays, less.present j)
      ] in
    (
      t',
      returns,
      less.intact,
      λ j h up. let listed = (below j).1 (h, up) in ground (arith, members j, listed),
      ground (arith, members d, there, apart, ==_refl d),
      λ j h independent other. elim (Bool-cases (elem j (dependents depth t d))) [
        | inl listed ↦ absurd (independent ((below j).0 listed).1)
        | inr unlisted ↦ ground (arith, members j, h, unlisted, other)
      ],
    )

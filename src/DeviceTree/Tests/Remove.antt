-- ===== src/DeviceTree/Tests/Remove.antt =====
-- A partition of the sample tree is removed with the volume on it.
use blivet.Prelude.{
  ℕ, ◌-◌, ◌≡◌, refl, true, false, Result, ok, err, List, [], ◌∷◌, arith, elem, ◌==◌,
}
use blivet.DeviceTree.Store.{DeviceTree, depends_on, remove_hook, remove_child}
use blivet.DeviceTree.Registry.{remove_device}
use blivet.DeviceTree.Register.{get_dependent_devices}
use blivet.DeviceTree.Ancestors.{Ancestor}
use blivet.DeviceTree.Remove.{remove_leaves, remove_rounds, recursive_remove}
use blivet.DeviceTree.Removed.{IsIntact}
use blivet.DeviceTree.Recursive.{recursive_remove-removes}
use blivet.DeviceTree.Hidden.{Falls}
use blivet.DeviceTree.Tests.Sample.{tree, rank, tree-IsLinked, tree-HasNoCopies, tree-IsAcyclic}

abbrev devices_of : Result DeviceTree → List ℕ
devices_of (ok t) = t.devices
devices_of (err e) = []

leaves_disk : devices_of (recursive_remove 3 3 tree 2 true true) ≡ 1 ∷ []
unfolding recursive_remove remove_rounds remove_leaves remove_device remove_hook remove_child
    get_dependent_devices depends_on
leaves_disk = refl

-- `modparent` makes no difference to the lists and the links.
leaves_nothing : devices_of (recursive_remove 3 3 tree 1 true false) ≡ []
unfolding recursive_remove remove_rounds remove_leaves remove_device remove_hook remove_child
    get_dependent_devices depends_on
leaves_nothing = refl

tree-IsIntact : IsIntact tree
tree-IsIntact = record {
  linked = tree-IsLinked;
  no_copies = tree-HasNoCopies;
  children_in = λ p j h. ground arith;
}

abbrev level : ℕ → ℕ
level d = 4 - d

tree-Falls : Falls tree level
tree-Falls p j h = ground arith

recursive_remove-removes_example :
    (t' : DeviceTree) × (recursive_remove 3 3 tree 2 true true ≡ ok t')
    × IsIntact t'
    × ((j : ℕ) → elem j tree.devices ≡ true → Ancestor tree j 2 → elem j t'.devices ≡ false)
    × (elem 2 t'.devices ≡ false)
    × ((j : ℕ)
        → elem j tree.devices ≡ true
        → ¬ (Ancestor tree j 2)
        → (j == 2) ≡ false
        → elem j t'.devices ≡ true)
recursive_remove-removes_example =
    recursive_remove-removes level rank 3 3 tree 2 true true tree-IsIntact tree-Falls tree-IsAcyclic
      (λ j h. ground arith) refl (omega arith)

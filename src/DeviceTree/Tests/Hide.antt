-- ===== src/DeviceTree/Tests/Hide.antt =====
-- A partition of the sample tree is hidden with the volume on it, and a volume is hidden and shown again.
use blivet.Prelude.{
  ℕ, ◌-◌, ◌≡◌, ◌⊎◌, refl, true, false, Result, ok, err, List, [], ◌∷◌, arith, elem,
}
use blivet.Actions.Model.{Action}
use blivet.DeviceTree.Store.{DeviceTree, remove_hook, remove_child}
use blivet.DeviceTree.Registry.{remove_device}
use blivet.DeviceTree.Session.{Session}
use blivet.DeviceTree.View.{view}
use blivet.DeviceTree.Hide.{hide, unhide}
use blivet.DeviceTree.Hidden.{IsSettled, Falls}
use blivet.DeviceTree.Hiding.{hide-hides}
use blivet.DeviceTree.Hiding.Leaf.{Below}
use blivet.DeviceTree.Unhide.{unhide-hide}
use blivet.DeviceTree.Tests.Sample.{tree, tree-IsLinked, tree-HasNoCopies}

abbrev idle : Action → Result (Unit {0})
idle a = ok tt

abbrev session : Session
session = record { tree = tree; actions = [] }

abbrev hidden_of : Result Session → List ℕ
hidden_of (ok s) = s.tree.hidden
hidden_of (err e) = []

leaves_first : hidden_of (hide idle idle 3 4 session 2) ≡ 3 ∷ 2 ∷ []
unfolding hide remove_device remove_hook remove_child
leaves_first = refl

tree-IsSettled : IsSettled tree
tree-IsSettled = record {
  linked = tree-IsLinked;
  no_copies = tree-HasNoCopies;
  children_in = λ p j h. ground arith;
  apart = λ j h. ground arith;
  exist = λ j h. ground arith;
}

abbrev level : ℕ → ℕ
level d = 4 - d

tree-Falls : Falls tree level
tree-Falls p j h = ground arith

hide-hides_example :
    (s' : Session) × (hide idle idle 3 4 session 2 ≡ ok s')
    × IsSettled s'.tree
    × ((j : ℕ)
        → elem j tree.devices ≡ true
        → Below tree 2 j
        → (elem j s'.tree.devices ≡ false) × (elem j s'.tree.hidden ≡ true))
    × ((j : ℕ) → elem j tree.devices ≡ true → (elem j s'.tree.devices ≡ true) ⊎ Below tree 2 j)
hide-hides_example =
    hide-hides idle idle 3 level 4 session 2 refl tree-IsSettled tree-Falls refl (omega arith)

unhide-hide_example :
    (s' : Session) × (t : DeviceTree) × (hide idle idle 3 2 session 3 ≡ ok s')
    × (unhide 3 s'.tree 3 ≡ ok t)
    × (view t ≡ view tree)
unhide-hide_example =
    unhide-hide idle idle 3 1 session 3 refl tree-IsLinked tree-HasNoCopies refl refl refl refl

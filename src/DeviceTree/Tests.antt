-- ===== src/DeviceTree/Tests.antt =====
-- A disk with a partition, and a volume on it with a file system, as blivet/devicetree.py treats them.
mod Sample
mod Hide
mod Remove
use blivet.Prelude.{
  Result, ℕ, ◌≤◌, ◌≡◌, refl, true, false, some, none, List, [], ◌∷◌, ◌==◌, arith, if◌then◌else◌,
  elem, ok, ◌↔◌, inl, inr,
}
use blivet.Actions.Model.{
  Kind, create_device, destroy_device, create_format, Device, Action, shrink,
}
use blivet.Actions.List.{sort}
use blivet.Actions.Prune.{AreDistinct, Listed}
use blivet.Actions.Sort.Correct.{IsSchedule}
use blivet.DeviceTree.Store.{Node, DeviceTree, depends_on}
use blivet.DeviceTree.Registry.{same_text, check_uuid, add_device, remove_device}
use blivet.DeviceTree.Register.{register_action, cancel_action, get_dependent_devices}
use blivet.DeviceTree.View.{view, attach, detach, IsLinked, HasNoCopies}
use blivet.DeviceTree.Refine.{Step, remove_device-refines, add_device-refines}
use blivet.DeviceTree.Cancel.{
  HasOwnUuid, cancel_action-register_action, cancel_action-register_action_create,
}
use blivet.DeviceTree.Ancestors.{
  Ancestor, IsAcyclic, depends_on-IsAncestor, get_dependent_devices-Ancestor,
}
use blivet.DeviceTree.Refuse.{register_action-create_format, add_device-new_uuid}
use blivet.DeviceTree.Session.{Session, add_action, cancel_listed, cancel_listed-add_action}
use blivet.DeviceTree.Creation.{tree_of, only_creates, sort-creates}
use blivet.DeviceTree.Tests.Sample.{
  blank, disk, part, volume, nodes, tree, tree-IsLinked, tree-HasNoCopies, rank, tree-IsAcyclic,
  no_volume, no_volume-IsLinked, no_volume-HasNoCopies, volume-HasOwnUuid, new_volume-HasOwnUuid,
  new_volume-child, plain_device, action, creations, creations-AreDistinct, creations-create,
}

remove_device-refines_example : Step tree (remove_device tree 3 false) (detach 3 (view tree))
remove_device-refines_example =
    remove_device-refines tree 3 false tree-IsLinked tree-HasNoCopies refl refl

new_volume-check_uuid : check_uuid no_volume 3 ≡ ok tt
unfolding check_uuid
new_volume-check_uuid = refl

add_device-refines_example :
    Step no_volume (add_device no_volume 3 true) (attach 3 (view no_volume))
add_device-refines_example =
    add_device-refines no_volume 3 true no_volume-IsLinked no_volume-HasNoCopies refl
      new_volume-check_uuid refl new_volume-child

tree-low : (j : ℕ) → elem j tree.devices ≡ true → rank j ≤ 3
tree-low j h = ground arith

get_dependent_devices-Ancestor_example :
    (elem 3 (get_dependent_devices 3 tree 1) ≡ true)
    ↔ ((elem 3 tree.devices ≡ true) × Ancestor tree 3 1)
get_dependent_devices-Ancestor_example =
    get_dependent_devices-Ancestor tree rank 3 1 3 tree-IsLinked tree-IsAcyclic tree-low

accepted : (t' : DeviceTree) × (add_device no_volume 3 true ≡ ok t')
unfolding add_device
accepted = (record no_volume { devices = 1 ∷ 2 ∷ 3 ∷ [] }, refl)

sort-creates_example :
    (sorted : List Action) × (sort (tree_of 3 tree) creations ≡ ok sorted)
    × IsSchedule (tree_of 3 tree) creations sorted
sort-creates_example =
    sort-creates 3 tree rank creations tree-IsAcyclic creations-AreDistinct creations-create

abbrev returns : Action → Result (Unit {0})
returns a = ok tt

abbrev session : Session
session = record { tree = tree; actions = creations }

abbrev destruction : Action
destruction = record (action 3 destroy_device) { id = 20 }

cancel_listed-add_action_example :
    (added : Session) × (restored : Session) × (add_action returns returns session destruction
      ≡ ok added)
    × (cancel_listed returns returns added destruction ≡ ok restored)
    × (restored.actions ≡ creations)
    × (view restored.tree ≡ view tree)
cancel_listed-add_action_example =
    cancel_listed-add_action returns returns session destruction refl refl refl refl tree-IsLinked
      tree-HasNoCopies refl refl refl (volume-HasOwnUuid (1 ∷ 2 ∷ 3 ∷ []) refl)

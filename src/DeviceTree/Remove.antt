-- ===== src/DeviceTree/Remove.antt =====
-- `recursive_remove` of blivet/devicetree.py as the populator and the handler of events call it, without
-- actions.
use blivet.Prelude.{
  ℕ, zero, suc, Bool, false, ◌&&◌, not, none, Result, ok, err, ◌>>=◌, out_of_fuel, List, [], ◌∷◌,
  if◌then◌else◌, remove_item, keep, reverse,
}
use blivet.DeviceTree.Store.{Node, DeviceTree, set_node, is_leaf}
use blivet.DeviceTree.Registry.{remove_device}
use blivet.DeviceTree.Register.{get_dependent_devices}

-- `device.format = None`, where the format may change.
abbrev pub unformatted : Node → Node
unformatted n = record n {
  format_uuid = none;
  format_label = none;
  format_is_fs = false;
  mountpoint = none;
  format_hidden = false;
  format_is_pv = false;
}

abbrev pub clear_format : DeviceTree → ℕ → DeviceTree
clear_format t d = if (t.node d).format_immutable then t else set_node t d (unformatted (t.node d))

-- `_remove_device(device, modparent=modparent)`. `StorageDevice.remove_hook` updates the parents' children
-- regardless of `modparent`: it decides only what the hooks of the classes of devices do besides, and
-- whether partitions are renamed, which is left out.
abbrev pub drop_device : Bool → DeviceTree → ℕ → Result DeviceTree
drop_device modparent t d = remove_device t d false

-- The loop over the leaves of a round, with the devices that are left.
unfoldable pub remove_leaves : Bool → List ℕ → DeviceTree → List ℕ → Result (DeviceTree × List ℕ)
remove_leaves modparent [] t devices = ok (t, devices)
remove_leaves modparent (leaf ∷ leaves) t devices = do
  t' ← drop_device modparent (clear_format t leaf) leaf
  left ← remove_item leaf devices
  remove_leaves modparent leaves t' left

-- `while devices`, for a number of rounds at most.
unfoldable pub remove_rounds : Bool → ℕ → DeviceTree → List ℕ → Result DeviceTree
unfolding remove_leaves
remove_rounds modparent rounds t [] = ok t
remove_rounds modparent zero t (d ∷ ds) = err out_of_fuel
remove_rounds modparent (suc rounds) t (d ∷ ds) = do
  (t', left) ← remove_leaves modparent (keep (is_leaf t) (d ∷ ds)) t (d ∷ ds)
  remove_rounds modparent rounds t' left

-- The number of rounds, and the depth to which dependents are searched.
unfoldable pub recursive_remove : ℕ → ℕ → DeviceTree → ℕ → Bool → Bool → Result DeviceTree
unfolding remove_rounds get_dependent_devices
recursive_remove rounds depth t device removes modparent = do
  t' ← remove_rounds modparent rounds t (reverse (get_dependent_devices depth t device))
  if removes && not (t.node device).is_disk
      then drop_device modparent (clear_format t' device) device
      else ok (clear_format t' device)

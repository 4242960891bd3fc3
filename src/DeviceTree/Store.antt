-- ===== src/DeviceTree/Store.antt =====
-- Devices as objects in a store, by their ids: `Device` of blivet/devices/device.py, `ParentList` of
-- blivet/devices/lib.py, and the hooks of `StorageDevice` in blivet/devices/storage.py, which the
-- classes of partitions, of LVM, btrfs and Stratis extend.
use blivet.Prelude.{
  ℕ, zero, suc, Bool, true, false, ◌||◌, not, Option, String, Result, ok, ◌>>=◌, ◌>>◌, raise_if,
  value_error, List, [], ◌∷◌, ◌++◌, ◌==◌, if◌then◌else◌, elem, remove_item, any, keep, join_map,
}

-- What the tree reads of a device. `parents` and `children` hold ids, `children` in the order in
-- which they were added.
pub record Node : Type 0 where
  pub parents : List ℕ
  pub children : List ℕ
  pub name : String
  pub path : String
  pub sysfs_path : String
  pub device_id : String
  pub uuid : Option String
  pub format_uuid : Option String
  pub format_label : Option String
  -- whether the format is a file system, and its attribute `mountpoint`, where it has one
  pub format_is_fs : Bool
  pub mountpoint : Option String
  pub complete : Bool
  pub is_no_device : Bool
  pub exists : Bool
  -- an LV made of other LVs
  pub from_lvs : List ℕ
  pub is_disk : Bool
  -- `format.hidden`, and whether the format is that of a PV
  pub format_hidden : Bool
  pub format_is_pv : Bool
  -- whether its format may not change, or the device is protected
  pub format_immutable : Bool
  -- the place of its name in the order of `natural_sort_key`
  pub natural_key : ℕ

-- The objects, the lists of the tree, and the set `_lvm_devices` of blivet/devicelibs/lvm.py.
-- `flags.allow_inconsistent_config` does not change.
pub record DeviceTree : Type 0 where
  pub node : ℕ → Node
  pub devices : List ℕ
  pub hidden : List ℕ
  pub allow_inconsistent_config : Bool
  pub lvm_devices : List String

abbrev pub set_node : DeviceTree → ℕ → Node → DeviceTree
set_node t i n = record t { node = λ j. if j == i then n else t.node j }

-- `Device.add_child` and `Device.remove_child`
unfoldable pub add_child : DeviceTree → ℕ → ℕ → Result DeviceTree
add_child t parent child = do
  raise_if (elem child (t.node parent).children) value_error
  ok (
      set_node t parent
        (record (t.node parent) { children = (t.node parent).children ++ child ∷ [] }))

unfoldable pub remove_child : DeviceTree → ℕ → ℕ → Result DeviceTree
remove_child t parent child = do
  children ← remove_item child (t.node parent).children
  ok (set_node t parent (record (t.node parent) { children = children }))

-- `ParentList.append` and `ParentList.remove` of a device's parents: the callback runs first.
unfoldable pub append_parent : DeviceTree → ℕ → ℕ → Result DeviceTree
unfolding add_child
append_parent t device y = do
  raise_if (elem y (t.node device).parents) value_error
  t' ← add_child t y device
  ok (set_node t' device (record (t'.node device) { parents = (t'.node device).parents ++ y ∷ [] }))

unfoldable pub remove_parent : DeviceTree → ℕ → ℕ → Result DeviceTree
unfolding remove_child
remove_parent t device y = do
  raise_if (not (elem y (t.node device).parents)) value_error
  t' ← remove_child t y device
  parents ← remove_item y (t'.node device).parents
  ok (set_node t' device (record (t'.node device) { parents = parents }))

-- The setter of `Device.parents`: the old parents go, one by one, and the new ones are appended.
unfoldable pub remove_parents : List ℕ → ℕ → DeviceTree → Result DeviceTree
unfolding remove_parent
remove_parents [] device t = ok t
remove_parents (y ∷ ys) device t = do t' ← remove_parent t device y; remove_parents ys device t'

unfoldable pub append_parents : List ℕ → ℕ → DeviceTree → Result DeviceTree
unfolding append_parent
append_parents [] device t = ok t
append_parents (y ∷ ys) device t = do t' ← append_parent t device y; append_parents ys device t'

unfoldable pub set_parents : DeviceTree → ℕ → List ℕ → Result DeviceTree
unfolding remove_parents append_parents
set_parents t device parents = do
  t' ← remove_parents (t.node device).parents device t
  append_parents parents device t'

abbrev pub is_leaf : DeviceTree → ℕ → Bool
is_leaf t device = elim (t.node device).children [ [] ↦ true | _ ∷ _ ↦ false ]

-- `StorageDevice.remove_hook` and, for a device that is not new, `StorageDevice.add_hook`.
unfoldable pub remove_hook : List ℕ → ℕ → DeviceTree → Result DeviceTree
unfolding remove_child
remove_hook [] device t = ok t
remove_hook (p ∷ ps) device t = do t' ← remove_child t p device; remove_hook ps device t'

unfoldable pub add_hook : List ℕ → ℕ → DeviceTree → Result DeviceTree
unfolding add_child
add_hook [] device t = ok t
add_hook (p ∷ ps) device t = do t' ← add_child t p device; add_hook ps device t'

-- `Device.depends_on`, to a depth.
unfoldable pub depends_on : ℕ → DeviceTree → ℕ → ℕ → Bool
depends_on zero t device dep = false
depends_on (suc depth) t device dep =
    elem dep (t.node device).parents || any (λ p. depends_on depth t p dep) (t.node device).parents

-- `Device.ancestors`, to a depth: the set of the device and the ancestors of its parents.
unfoldable pub ancestors : ℕ → DeviceTree → ℕ → List ℕ
ancestors zero t device = device ∷ []
ancestors (suc depth) t device =
    device ∷ join_map (ancestors depth t) (keep (λ d. not (d == device)) (t.node device).parents)

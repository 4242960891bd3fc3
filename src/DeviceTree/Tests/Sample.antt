-- ===== src/DeviceTree/Tests/Sample.antt =====
-- A disk with a partition, a volume on it with a file system, and actions that create them.
use blivet.Prelude.{
  ℕ, ◌≡◌, refl, true, false, some, none, List, [], ◌∷◌, ◌==◌, arith, if◌then◌else◌, elem, inl, inr,
}
use blivet.Actions.Model.{Kind, create_device, create_format, Device, Action, shrink}
use blivet.Actions.Prune.{AreDistinct, Listed}
use blivet.DeviceTree.Store.{Node, DeviceTree}
use blivet.DeviceTree.View.{view, IsLinked, HasNoCopies}
use blivet.DeviceTree.Cancel.{HasOwnUuid}
use blivet.DeviceTree.Ancestors.{IsAcyclic}
use blivet.DeviceTree.Creation.{only_creates}

abbrev pub blank : Node
blank = record {
  parents = [];
  children = [];
  name = "blank";
  path = "/dev/blank";
  sysfs_path = "";
  device_id = "blank";
  uuid = none;
  format_uuid = none;
  format_label = none;
  format_is_fs = false;
  mountpoint = none;
  complete = true;
  is_no_device = false;
  exists = true;
  from_lvs = [];
  is_disk = false;
  format_hidden = false;
  format_is_pv = false;
  format_immutable = false;
  natural_key = 0;
}

abbrev pub disk : Node
disk = record blank { name = "sda"; children = 2 ∷ []; uuid = some "disk-uuid" }

abbrev pub part : Node
part = record blank { name = "sda1"; parents = 1 ∷ []; children = 3 ∷ [] }

abbrev pub volume : Node
volume = record blank {
  name = "root";
  parents = 2 ∷ [];
  uuid = some "volume-uuid";
  format_is_fs = true;
  mountpoint = some "/";
}

abbrev pub nodes : ℕ → Node
nodes j = if j == 1 then disk else if j == 2 then part else if j == 3 then volume else blank

abbrev pub tree : DeviceTree
tree = record {
  node = nodes;
  devices = 1 ∷ 2 ∷ 3 ∷ [];
  hidden = [];
  allow_inconsistent_config = false;
  lvm_devices = [];
}

pub tree-IsLinked : IsLinked (view tree)
unfolding view
tree-IsLinked = record {
  parents_in = λ d p h h'. ground arith;
  known = λ d p h h'. ground arith;
  child_of = λ d p h. ground arith;
}

pub tree-HasNoCopies : HasNoCopies tree
tree-HasNoCopies = record {
  devices_distinct = ground arith;
  parents_distinct = λ d. ground arith;
  children_distinct = λ d. ground arith;
}

abbrev pub rank : ℕ → ℕ
rank d = d

pub tree-IsAcyclic : IsAcyclic tree rank
tree-IsAcyclic d p h = ground arith

-- The volume has been made, and is not in the tree yet.
abbrev pub no_volume : DeviceTree
no_volume = record tree { devices = 1 ∷ 2 ∷ [] }

pub no_volume-IsLinked : IsLinked (view no_volume)
unfolding view
no_volume-IsLinked = record {
  parents_in = λ d p h h'. ground arith;
  known = λ d p h h'. ground arith;
  child_of = λ d p h. ground arith;
}

pub no_volume-HasNoCopies : HasNoCopies no_volume
no_volume-HasNoCopies = record {
  devices_distinct = ground arith;
  parents_distinct = λ d. ground arith;
  children_distinct = λ d. ground arith;
}

pub volume-HasOwnUuid : (devices : List ℕ) → devices ≡ 1 ∷ 2 ∷ 3 ∷ [] → HasOwnUuid tree 3
volume-HasOwnUuid devices e given j h other = ground arith

pub new_volume-HasOwnUuid : HasOwnUuid no_volume 3
new_volume-HasOwnUuid given j h other = ground arith

pub new_volume-child :
    (p : ℕ) → elem p (no_volume.node 3).parents ≡ true → elem 3 (no_volume.node p).children ≡ true
new_volume-child p h = ground arith

abbrev pub plain_device : ℕ → Device
plain_device id = record {
  id = id;
  path = "/dev/blank";
  exists = false;
  is_partition = false;
  disk = 0;
  number = 0;
  disklabel_supported = false;
  is_lv = false;
  vg = 0;
  cached = false;
  linear = false;
  container = none;
}

abbrev pub action : ℕ → Kind → Action
action d kind = record {
  id = d;
  kind = kind;
  device = plain_device d;
  container = none;
  dir = shrink;
  format_exists = false;
  attr = 0;
}

abbrev pub creations : List Action
creations =
    record (action 3 create_format) { id = 9 }
    ∷ action 3 create_device
    ∷ action 2 create_device
    ∷ []

pub creations-AreDistinct : AreDistinct creations
creations-AreDistinct = ground arith

pub creations-create : (a : Action) → Listed a creations → only_creates a ≡ true
unfolding only_creates
creations-create a (inl e) = rw e refl
creations-create a (inr (inl e)) = rw e refl
creations-create a (inr (inr (inl e))) = rw e refl
creations-create a (inr (inr (inr x))) = elim x [ ]

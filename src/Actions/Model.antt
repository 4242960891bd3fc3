-- ===== src/Actions/Model.antt =====
-- The data of blivet/deviceaction.py: the classes of actions, and of an action and its device the
-- attributes that `requires` and `obsoletes` read. A device or an action is the object with its id:
-- `==` on them compares identities.
use blivet.Prelude.{ℕ, Bool, true, false, ◌&&◌, Option, none, some, ◌==◌, List, any, String}

-- The subclasses of DeviceAction.
pub data Kind : Type 0 where
  create_device destroy_device resize_device create_format destroy_format : Kind
  resize_format add_member remove_member configure_format configure_device : Kind

pub data Direction : Type 0 where
  shrink grow : Direction

-- `ACTION_OBJECT_*`
pub data Operand : Type 0 where
  format device container : Operand

pub record Device : Type 0 where
  pub id : ℕ
  pub path : String
  pub exists : Bool
  -- PartitionDevice, its disk, its parted number, and whether the disklabel is supported
  pub is_partition : Bool
  pub disk : ℕ
  pub number : ℕ
  pub disklabel_supported : Bool
  -- LVMLogicalVolumeDevice, its volume group, whether it is cached, and whether it is linear
  pub is_lv : Bool
  pub vg : ℕ
  pub cached : Bool
  pub linear : Bool
  -- the attribute `container`, where the class has it
  pub container : Option ℕ

pub record Action : Type 0 where
  pub id : ℕ
  pub kind : Kind
  pub device : Device
  -- the container given to a member action; otherwise the device's, if it has one
  pub container : Option ℕ
  -- `dir` of a resize
  pub dir : Direction
  -- `action.format.exists`, where a destroy's format is the one that it removed from the device
  pub format_exists : Bool
  -- the attribute that a configure action changes
  pub attr : ℕ

-- `ACTION_TYPE_*`, the class attribute `type`.
abbrev pub type : Kind → ℕ
type create_device = 100
type destroy_device = 1000
type resize_device = 500
type create_format = 100
type destroy_format = 1000
type resize_format = 500
type add_member = 50
type remove_member = 10
type configure_format = 5
type configure_device = 5

-- The class attribute `obj`.
abbrev pub obj : Kind → Operand
obj create_device = device
obj destroy_device = device
obj resize_device = device
obj create_format = format
obj destroy_format = format
obj resize_format = format
obj add_member = container
obj remove_member = container
obj configure_format = format
obj configure_device = device

abbrev pub same_operand : Operand → Operand → Bool
same_operand format format = true
same_operand device device = true
same_operand container container = true
same_operand _ _ = false

abbrev pub same_direction : Direction → Direction → Bool
same_direction shrink shrink = true
same_direction grow grow = true
same_direction _ _ = false

abbrev pub same_option : Option ℕ → Option ℕ → Bool
same_option none none = true
same_option (some a) (some b) = a == b
same_option _ _ = false

abbrev pub is_destroy : Action → Bool
is_destroy a = type a.kind == 1000

abbrev pub is_create : Action → Bool
is_create a = type a.kind == 100

abbrev pub is_resize : Action → Bool
is_resize a = type a.kind == 500

abbrev pub is_shrink : Action → Bool
is_shrink a = is_resize a && same_direction a.dir shrink

abbrev pub is_grow : Action → Bool
is_grow a = is_resize a && same_direction a.dir grow

abbrev pub is_add : Action → Bool
is_add a = type a.kind == 50

abbrev pub is_remove : Action → Bool
is_remove a = type a.kind == 10

abbrev pub is_configure : Action → Bool
is_configure a = type a.kind == 5

abbrev pub is_device : Action → Bool
is_device a = same_operand (obj a.kind) device

abbrev pub is_container : Action → Bool
is_container a = same_operand (obj a.kind) container

abbrev pub is_format : Action → Bool
is_format a = same_operand (obj a.kind) format

abbrev pub same_device : Action → Action → Bool
same_device a b = a.device.id == b.device.id

abbrev pub same_container : Action → Action → Bool
same_container a b = same_option a.container b.container

-- What an action asks of the device tree: `depends_on` of each class of devices, and `ancestors`,
-- by the devices' ids.
pub record Tree : Type 0 where
  pub depends_on : ℕ → ℕ → Bool
  pub ancestors : ℕ → List ℕ

-- `self.device.depends_on(action.device)`
abbrev pub device_depends : Tree → Action → Action → Bool
device_depends tree self action = tree.depends_on self.device.id action.device.id

-- `set(a.ancestors).intersection(set(b.ancestors))` has a member.
abbrev pub share_ancestor : Tree → Action → Action → Bool
share_ancestor tree self action =
    any (λ x. any (λ y. x == y) (tree.ancestors action.device.id)) (tree.ancestors self.device.id)

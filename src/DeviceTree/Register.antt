-- ===== src/DeviceTree/Register.antt =====
-- `_register_action` and `_cancel_action` of blivet/devicetree.py: what an action does to the list of
-- devices as it is added to the list of actions, or removed from it.
use blivet.Prelude.{
  ℕ, Bool, true, false, ◌&&◌, not, Option, none, some, String, str_eq, Result, ok, ◌>>=◌, ◌>>◌,
  raise_if, device_tree_error, List, [], ◌∷◌, if◌then◌else◌, elem, any, keep, map,
}
use blivet.Actions.Model.{Kind, create_device, destroy_device, create_format}
use blivet.DeviceTree.Store.{DeviceTree, is_leaf, depends_on}
use blivet.DeviceTree.Registry.{is_given, add_device, remove_device}

-- `leaves`
unfoldable pub leaves : DeviceTree → List ℕ
leaves t = keep (λ d. is_leaf t d) t.devices

-- An object of a list: a string, or the format of a device, which is equal to itself only.
pub data PyObject : Type 0 where
  text : String → PyObject
  format_of : ℕ → PyObject

abbrev pub same_object : PyObject → PyObject → Bool
same_object (text a) (text b) = str_eq a b
same_object _ _ = false

-- `filesystems`: the formats, not their mountpoints.
unfoldable pub filesystems : DeviceTree → List PyObject
unfolding leaves
filesystems t = map format_of (keep (λ d. is_given (t.node d).mountpoint) (leaves t))

-- `mountpoint in self.filesystems`
abbrev pub in_filesystems : DeviceTree → Option String → Bool
in_filesystems t none = false
in_filesystems t (some mountpoint) = any (same_object (text mountpoint)) (filesystems t)

-- The loops over the LVs that an LV is made of.
unfoldable pub remove_listed : List ℕ → DeviceTree → Result DeviceTree
remove_listed [] t = ok t
remove_listed (lv ∷ lvs) t = do
  t' ← if elem lv t.devices then remove_device t lv false else ok t
  remove_listed lvs t'

unfoldable pub add_back : List ℕ → DeviceTree → Result DeviceTree
add_back [] t = ok t
add_back (lv ∷ lvs) t = do t' ← add_device t lv false; add_back lvs t'

abbrev creates_device : Kind → Bool
creates_device create_device = true
creates_device _ = false

-- The first test: only a device that is to be created is not in the tree.
abbrev check_present : DeviceTree → Kind → ℕ → Result (Unit {0})
check_present t kind device =
    raise_if (if creates_device kind then elem device t.devices else not (elem device t.devices))
      device_tree_error

abbrev register_as : DeviceTree → ℕ → Kind → Result DeviceTree
register_as t device create_device = do
  t' ← remove_listed (t.node device).from_lvs t
  add_device t' device true
register_as t device destroy_device = do
  t' ← remove_device t device false
  add_back (t.node device).from_lvs t'
register_as t device create_format = do
  raise_if ((t.node device).format_is_fs && in_filesystems t (t.node device).mountpoint)
      device_tree_error
  ok t
register_as t device _ = ok t

-- `_register_action`
unfoldable pub register_action : DeviceTree → Kind → ℕ → Result DeviceTree
unfolding remove_listed add_back filesystems
register_action t kind device = do check_present t kind device; register_as t device kind

-- `_cancel_action`
unfoldable pub cancel_action : DeviceTree → Kind → ℕ → Result DeviceTree
unfolding remove_listed add_back
cancel_action t create_device device = do
  t' ← remove_device t device false
  add_back (t.node device).from_lvs t'
cancel_action t destroy_device device = do
  t' ← remove_listed (t.node device).from_lvs t
  add_device t' device false
cancel_action t _ device = ok t

-- `get_dependent_devices`: a leaf has no dependents, so the list is not searched.
unfoldable pub get_dependent_devices : ℕ → DeviceTree → ℕ → List ℕ
get_dependent_devices depth t dep =
    if is_leaf t dep then [] else keep (λ d. depends_on depth t d dep) t.devices

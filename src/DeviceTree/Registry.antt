-- ===== src/DeviceTree/Registry.antt =====
-- `DeviceTreeBase` of blivet/devicetree.py: the list of devices, the searches in it, and what an
-- action does to it as it is added to the list of actions or removed from it.
use blivet.Prelude.{
  ℕ, Bool, true, false, ◌&&◌, ◌||◌, not, Option, none, some, String, str_eq, Result, ok, err, ◌>>=◌,
  ◌>>◌, raise_if, value_error, device_tree_error, duplicate_uuid_error, attribute_error, List, [],
  ◌∷◌, ◌++◌, if◌then◌else◌, elem, without, any, all, keep, ◌==◌,
}
use blivet.DeviceTree.Store.{DeviceTree, is_leaf, add_hook, remove_hook}

-- A string that is None or empty is false.
abbrev pub is_given : Option String → Bool
is_given none = false
is_given (some s) = not (str_eq s "")

abbrev pub same_text : Option String → Option String → Bool
same_text none none = true
same_text (some a) (some b) = str_eq a b
same_text _ _ = false

-- `_filter_devices`
abbrev pub filter_devices : DeviceTree → Bool → Bool → List ℕ
filter_devices t incomplete hidden =
    keep (λ d. incomplete || (t.node d).complete)
      (if hidden then t.devices ++ t.hidden else t.devices)

-- `next((d for d in devices if ...), None)`
abbrev pub first_of : (ℕ → Bool) → List ℕ → Option ℕ
first_of test [] = none
first_of test (d ∷ ds) = let rest = first_of test ds in if test d then some d else rest

-- `get_device_by_uuid`
abbrev has_uuid : DeviceTree → Option String → ℕ → Bool
has_uuid t uuid d = same_text (t.node d).uuid uuid || same_text (t.node d).format_uuid uuid

abbrev single : List ℕ → Result (Option ℕ)
single [] = ok none
single (d ∷ []) = ok (some d)
single (d ∷ e ∷ ds) = err duplicate_uuid_error

unfoldable pub get_device_by_uuid : DeviceTree → Option String → Bool → Bool → Result (Option ℕ)
get_device_by_uuid t uuid incomplete hidden =
    if is_given uuid
    then single (keep (has_uuid t uuid) (filter_devices t incomplete hidden))
    else ok none

-- `get_device_by_id`, where the ids of the model are those of the objects, `get_device_by_sysfs_path`,
-- `get_device_by_label` and `get_device_by_device_id`.
unfoldable pub get_device_by_id : DeviceTree → ℕ → Bool → Bool → Option ℕ
get_device_by_id t id_num incomplete hidden =
    first_of (λ d. d == id_num) (filter_devices t incomplete hidden)

unfoldable pub get_device_by_sysfs_path : DeviceTree → Option String → Bool → Bool → Option ℕ
get_device_by_sysfs_path t path incomplete hidden =
    if is_given path
    then first_of (λ d. same_text (some (t.node d).sysfs_path) path)
        (filter_devices t incomplete hidden)
    else none

unfoldable pub get_device_by_label : DeviceTree → Option String → Bool → Bool → Option ℕ
get_device_by_label t label incomplete hidden =
    if is_given label
    then first_of (λ d. same_text (t.node d).format_label label)
        (filter_devices t incomplete hidden)
    else none

unfoldable pub get_device_by_device_id : DeviceTree → String → Bool → Bool → Option ℕ
get_device_by_device_id t device_id incomplete hidden =
    first_of (λ d. str_eq (t.node d).device_id device_id) (filter_devices t incomplete hidden)

-- The device found for a UUID that some device has; the source reads its name.
abbrev pub known_uuid : DeviceTree → ℕ → Option ℕ → Result (Unit {0})
known_uuid t newdev none = err attribute_error
known_uuid t newdev (some dev) =
    if str_eq (t.node dev).name (t.node newdev).name
    then err device_tree_error
    else if not t.allow_inconsistent_config
    then err duplicate_uuid_error
    else ok tt

-- The check of the UUID in `_add_device`.
unfoldable pub check_uuid : DeviceTree → ℕ → Result (Unit {0})
unfolding get_device_by_uuid
check_uuid t newdev =
    let uuid = (t.node newdev).uuid in
    if is_given uuid
      && any (λ d. same_text (t.node d).uuid uuid) t.devices
      && not (t.node newdev).is_no_device
    then (do dev ← get_device_by_uuid t uuid true true; known_uuid t newdev dev)
    else ok tt

-- `_add_device`
unfoldable pub add_device : DeviceTree → ℕ → Bool → Result DeviceTree
unfolding check_uuid
add_device t newdev new = do
  check_uuid t newdev
  raise_if (not (all (λ p. elem p t.devices) (t.node newdev).parents)) device_tree_error
  t' ← if new then ok t else add_hook (t.node newdev).parents newdev t
  ok (record t' { devices = t'.devices ++ newdev ∷ [] })

-- `_remove_device`, less the renaming of the other partitions of a disk after parted.
unfoldable pub remove_device : DeviceTree → ℕ → Bool → Result DeviceTree
remove_device t dev force = do
  raise_if (not (elem dev t.devices)) value_error
  raise_if (not (is_leaf t dev) && not force) value_error
  t' ← remove_hook (t.node dev).parents dev t
  ok (record t' { devices = without dev t'.devices })

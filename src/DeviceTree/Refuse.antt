-- ===== src/DeviceTree/Refuse.antt =====
-- What `_remove_device`, `_add_device` and `_register_action` of blivet/devicetree.py refuse.
use blivet.Prelude.{
  ℕ, ◌≡◌, refl, ap, ◌↔◌, ◌⊎◌, Bool, true, false, Option, none, some, String, Result, >>=-eq-ok,
  elem→any, ok, err, List, [], ◌∷◌, arith, map, keep, any, elem, inl, inr, Bool-cases, value_error,
  ◌>>=◌, str_eq,
}
use blivet.Actions.Model.{create_format}
use blivet.DeviceTree.Store.{DeviceTree, is_leaf}
use blivet.DeviceTree.Registry.{
  is_given, same_text, known_uuid, check_uuid, add_device, remove_device,
}
use blivet.DeviceTree.Register.{
  text, format_of, same_object, filesystems, in_filesystems, leaves, register_action,
}
use blivet.DeviceTree.View.{view, IsLinked, HasNoCopies}
use blivet.DeviceTree.Refine.{remove_device-refines}

-- Where links are in order, `_remove_device` without `force` raises `ValueError` for a device that is
-- not in the tree or has children, and for no other.
pub remove_device_raises :
    (t : DeviceTree) (d : ℕ)
    → IsLinked (view t)
    → HasNoCopies t
    → (remove_device t d false ≡ err value_error)
      ↔ ((elem d t.devices ≡ false) ⊎ (is_leaf t d ≡ false))
remove_device_raises t d l n = (
  refused,
  λ h. elim h [
    | inl absent ↦ unfold remove_device in rw absent refl
    | inr inner ↦ with_children inner
  ],
)
  where
    refused :
        remove_device t d false ≡ err value_error
        → (elem d t.devices ≡ false) ⊎ (is_leaf t d ≡ false)
    refused r = elim (Bool-cases (elem d t.devices)) [
      | inr absent ↦ inl absent
      | inl there ↦ elim (Bool-cases (is_leaf t d)) [
        | inr inner ↦ inr inner
        | inl leaf ↦ let s = (remove_device-refines t d false l n there leaf).returns in cc
      ]
    ]

    with_children : is_leaf t d ≡ false → remove_device t d false ≡ err value_error
    with_children inner =
        unfold remove_device in
        elim (Bool-cases (elem d t.devices)) [
          | inr absent ↦ rw absent refl
          | inl there ↦ rw (there, inner) refl
        ]

-- No format is equal to a string.
text-not_in : (s : String) (ds : List ℕ) → any (same_object (text s)) (map format_of ds) ≡ false
text-not_in s [] = refl
text-not_in s (d ∷ ds) = text-not_in s ds

in_filesystems-false : (t : DeviceTree) (m : Option String) → in_filesystems t m ≡ false
unfolding filesystems
in_filesystems-false t none = refl
in_filesystems-false t (some m) =
    text-not_in m (keep (λ d. is_given (t.node d).mountpoint) (leaves t))

-- The test "mountpoint already in use" never fails: `_register_action` of an action that formats a
-- device of the tree returns, whatever the mountpoints of the tree are.
pub register_action-create_format :
    (t : DeviceTree) (d : ℕ) → elem d t.devices ≡ true → register_action t create_format d ≡ ok t
unfolding register_action
register_action-create_format t d h =
    rw (h, in_filesystems-false t (t.node d).mountpoint) (ground arith)

abbrev returned : Result (Unit {0}) → Bool
returned (err e) = false
returned (ok x) = true

-- A UUID that some device has is refused.
returned-known_uuid :
    (t : DeviceTree) (d : ℕ) (found : Result (Option ℕ))
    → t.allow_inconsistent_config ≡ false
    → returned (found >>= known_uuid t d) ≡ false
returned-known_uuid t d (err e) strict = refl
returned-known_uuid t d (ok none) strict = refl
returned-known_uuid t d (ok (some k)) strict =
    elim (Bool-cases (str_eq (t.node k).name (t.node d).name)) [
      | inl same ↦ rw same refl
      | inr other ↦ rw (other, strict) refl
    ]

returned-check_uuid :
    (t : DeviceTree) (d : ℕ)
    → t.allow_inconsistent_config ≡ false
    → is_given (t.node d).uuid ≡ true
    → any (λ k. same_text (t.node k).uuid (t.node d).uuid) t.devices ≡ true
    → (t.node d).is_no_device ≡ false
    → returned (check_uuid t d) ≡ false
unfolding check_uuid
returned-check_uuid t d strict given some_has real =
    rw (given, some_has, real) (returned-known_uuid t d _ strict)

-- Where duplicates are not allowed, a device that `_add_device` accepts has no UUID, or one that no
-- device of the tree had, or is a stand-in for a missing device.
pub add_device-new_uuid :
    (t : DeviceTree) (d : ℕ) (new : Bool) {t' : DeviceTree}
    → t.allow_inconsistent_config ≡ false
    → add_device t d new ≡ ok t'
    → is_given (t.node d).uuid ≡ true
    → (t.node d).is_no_device ≡ false
    → (j : ℕ) → elem j t.devices ≡ true
    → same_text (t.node j).uuid (t.node d).uuid ≡ false
unfolding add_device
add_device-new_uuid t d new strict added given real j hj =
    let (x, checked, _) = >>=-eq-ok (check_uuid t d) _ added in
    elim (Bool-cases (same_text (t.node j).uuid (t.node d).uuid)) [
      | inr differs ↦ differs
      | inl same ↦
          let some_has =
            elem→any (λ k. same_text (t.node k).uuid (t.node d).uuid) t.devices j hj same in
          let refused = returned-check_uuid t d strict given some_has real in
          let accepted : returned (check_uuid t d) ≡ true = ap returned checked in cc
    ]

-- ===== src/Actions/Requires.antt =====
-- `requires` of each class in blivet/deviceaction.py.
use blivet.Prelude.{
  ℕ, Bool, true, false, ◌&&◌, ◌||◌, not, Option, none, some, ◌==◌, ltb, if◌then◌else◌,
}
use blivet.Actions.Model.{
  Kind, create_device, destroy_device, resize_device, create_format, destroy_format, resize_format,
  add_member, remove_member, configure_format, configure_device, Action, Tree, type, is_destroy,
  is_create, is_resize, is_shrink, is_grow, is_add, is_remove, is_device, is_container, is_format,
  same_direction, same_device, same_container, same_option, device_depends, share_ancestor,
}

-- `DeviceAction.requires`
unfoldable pub base_requires : Action → Action → Bool
base_requires self action =
    not (is_container self || is_container action) && ltb (type self.kind) (type action.kind)

module _ (tree : Tree) (self action : Action) where
  -- Both create partitions on one disk.
  abbrev both_partitions : Bool
  both_partitions =
      is_create action
      && is_device action
      && self.device.is_partition
      && action.device.is_partition
      && self.device.disk == action.device.disk

  -- Both create logical volumes of one group.
  abbrev both_lvs : Bool
  both_lvs =
      is_create action
      && is_device action
      && self.device.is_lv
      && action.device.is_lv
      && self.device.vg == action.device.vg

  unfoldable pub create_device_requires : Bool
  unfolding base_requires
  create_device_requires =
      let rc = base_requires self action in
      if device_depends tree self action
      then true
      else if both_partitions
      then (if ltb action.device.number self.device.number then true else rc)
      else if both_lvs
      then (if not self.device.cached && action.device.cached
          then true
          else if self.device.linear && not action.device.linear
          then true
          else rc)
      else if is_add action && same_container action self
      then true
      else rc

  -- Both destroy partitions on one disk, whose label is supported.
  abbrev both_destroyed_partitions : Bool
  both_destroyed_partitions =
      is_destroy action
      && is_device action
      && (self.device.is_partition && self.device.disklabel_supported)
      && (action.device.is_partition && action.device.disklabel_supported)
      && self.device.disk == action.device.disk

  unfoldable pub destroy_device_requires : Bool
  unfolding base_requires
  destroy_device_requires =
      let rc = base_requires self action in
      if device_depends tree action self && is_destroy action
      then true
      else if both_destroyed_partitions
      then (if ltb self.device.number action.device.number then true else rc)
      else if is_destroy action && is_format action && same_device action self
      then true
      else if is_remove action && same_device action self
      then true
      else rc

  unfoldable pub resize_device_requires : Bool
  unfolding base_requires
  resize_device_requires =
      let rc = base_requires self action in
      if is_resize action
      then (if same_device self action
            && same_direction self.dir action.dir
            && is_format action
            && is_shrink self
          then true
          else if is_grow action && device_depends tree self action
          then true
          else if is_shrink action && device_depends tree action self
          then true
          else if is_grow self && is_shrink action && share_ancestor tree self action
          then true
          else rc)
      else if is_remove action && same_device action self
      then true
      else if is_add action && same_container action self
      then true
      else rc

  unfoldable pub create_format_requires : Bool
  unfolding base_requires
  create_format_requires =
      base_requires self action
      || (device_depends tree self action
          && not ((is_destroy action && is_device action) || is_container action))
      || (is_device action && (is_create action || is_resize action) && same_device self action)

  unfoldable pub destroy_format_requires : Bool
  unfolding base_requires
  destroy_format_requires =
      let rc = base_requires self action in
      if device_depends tree action self && is_destroy action
      then true
      else if is_remove action && same_device action self
      then true
      else rc

  unfoldable pub resize_format_requires : Bool
  unfolding base_requires
  resize_format_requires =
      let rc = base_requires self action in
      if is_resize action
      then (if same_device self action
            && same_direction self.dir action.dir
            && is_device action
            && is_grow self
          then true
          else if is_shrink action && device_depends tree action self
          then true
          else if is_grow action && device_depends tree self action
          then true
          else rc)
      else if is_remove action && same_device action self
      then true
      else rc

  unfoldable pub add_member_requires : Bool
  add_member_requires = (is_create action || is_resize action) && same_device action self

  -- A device whose class has no container is not in this one.
  abbrev in_container : Option ℕ → Option ℕ → Bool
  in_container none c = false
  in_container (some d) c = same_option (some d) c

  unfoldable pub remove_member_requires : Bool
  remove_member_requires =
      if (is_shrink action || is_destroy action)
        && in_container action.device.container self.container
      then true
      else if is_add action && same_container action self
      then true
      else false

  -- The call on an action of any class. The two configure classes inherit the base method.
  requires_as : Kind → Bool
  requires_as create_device = create_device_requires
  requires_as destroy_device = destroy_device_requires
  requires_as resize_device = resize_device_requires
  requires_as create_format = create_format_requires
  requires_as destroy_format = destroy_format_requires
  requires_as resize_format = resize_format_requires
  requires_as add_member = add_member_requires
  requires_as remove_member = remove_member_requires
  requires_as configure_format = base_requires self action
  requires_as configure_device = base_requires self action

-- `self.requires(action)`
unfoldable pub requires : Tree → Action → Action → Bool
unfolding requires_as create_device_requires destroy_device_requires resize_device_requires
    create_format_requires destroy_format_requires resize_format_requires add_member_requires
    remove_member_requires base_requires
requires tree self action = requires_as tree self action self.kind

-- ===== src/Actions/Obsoletes.antt =====
-- `obsoletes` of each class in blivet/deviceaction.py.
use blivet.Prelude.{Bool, true, false, ◌&&◌, ◌||◌, not, some, ◌==◌, ltb, leb, if◌then◌else◌}
use blivet.Actions.Model.{
  Kind, create_device, destroy_device, resize_device, create_format, destroy_format, resize_format,
  add_member, remove_member, configure_format, configure_device, Action, type, obj, same_operand,
  is_destroy, is_add, is_remove, is_format, same_device, same_container, same_option,
}

module _ (self action : Action) where
  -- `DeviceAction.obsoletes`
  unfoldable pub base_obsoletes : Bool
  base_obsoletes =
      same_device self action
      && type self.kind == type action.kind
      && same_operand (obj self.kind) (obj action.kind)
      && ltb action.id self.id

  unfoldable pub destroy_device_obsoletes : Bool
  destroy_device_obsoletes =
      if same_device action self
      then (if leb action.id self.id && not self.device.exists
          then true
          else if ltb action.id self.id
              && self.device.exists
              && not ((is_destroy action && is_format action) || is_remove action)
          then true
          else if is_add action && same_device action self
          then true
          else false)
      else if is_add action && same_option action.container (some self.device.id)
      then true
      else false

  unfoldable pub create_format_obsoletes : Bool
  create_format_obsoletes =
      same_device self action
      && same_operand (obj self.kind) (obj action.kind)
      && not (is_destroy action && action.format_exists)
      && ltb action.id self.id

  unfoldable pub destroy_format_obsoletes : Bool
  destroy_format_obsoletes =
      if same_device self action && same_operand (obj self.kind) (obj action.kind)
      then (if is_destroy action
          then (if self.format_exists && not action.format_exists
              then true
              else if not self.format_exists && action.format_exists
              then false
              else if self.id == action.id && not self.format_exists
              then true
              else ltb self.id action.id)
          else ltb action.id self.id)
      else false

  -- The member and its container are the same.
  abbrev same_membership : Bool
  same_membership = same_device action self && same_container action self

  unfoldable pub add_member_obsoletes : Bool
  add_member_obsoletes =
      if is_remove action && same_membership
      then true
      else if is_add action && same_membership && ltb self.id action.id
      then true
      else false

  unfoldable pub remove_member_obsoletes : Bool
  remove_member_obsoletes =
      if is_add action && same_membership
      then true
      else if is_remove action && same_membership && ltb self.id action.id
      then true
      else false

  unfoldable pub configure_obsoletes : Bool
  configure_obsoletes =
      same_device self action
      && type self.kind == type action.kind
      && same_operand (obj self.kind) (obj action.kind)
      && self.attr == action.attr
      && ltb action.id self.id

  obsoletes_as : Kind → Bool
  obsoletes_as create_device = base_obsoletes
  obsoletes_as destroy_device = destroy_device_obsoletes
  obsoletes_as resize_device = base_obsoletes
  obsoletes_as create_format = create_format_obsoletes
  obsoletes_as destroy_format = destroy_format_obsoletes
  obsoletes_as resize_format = base_obsoletes
  obsoletes_as add_member = add_member_obsoletes
  obsoletes_as remove_member = remove_member_obsoletes
  obsoletes_as configure_format = configure_obsoletes
  obsoletes_as configure_device = configure_obsoletes

-- `self.obsoletes(action)`
unfoldable pub obsoletes : Action → Action → Bool
unfolding obsoletes_as base_obsoletes destroy_device_obsoletes create_format_obsoletes
    destroy_format_obsoletes add_member_obsoletes remove_member_obsoletes configure_obsoletes
obsoletes self action = obsoletes_as self action self.kind

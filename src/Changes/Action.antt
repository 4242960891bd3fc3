-- ===== src/Changes/Action.antt =====
-- The constructor, `apply` and `cancel` of each class of actions on a device or its format, in
-- blivet/deviceaction.py.
use blivet.Prelude.{
  ℕ, Bool, true, false, ◌&&◌, not, Option, none, some, Result, ok, ◌>>=◌, ◌>>◌, raise_if,
  value_error, dependency_error, ℤ, ◌+ℤ◌, pos, negsuc, ltb, ◌==◌, if◌then◌else◌,
}
use blivet.Changes.Device.{
  Format, Storage, is_set, format_resizable, format_current_size, set_format_target, blank_format,
  resizable, get_size, min_size, max_size, set_target_size, set_format, clear_format,
}

-- What an action of each class remembers: what it found, and what it changes that to.
pub data Change : Type 0 where
  creates_device destroys_device : Change
  resizes_device resizes_format : (orig_size target_size : ℕ) → Change
  creates_format : (orig format : Format) → Change
  destroys_format : (orig : Format) → Change
  configures_device configures_format : (attr old_value new_value : ℕ) → Change

-- The constructors. `_check_device_dependencies` is that of the device's class.
abbrev pub check_dependencies : Storage → Result (Unit {0})
check_dependencies d = raise_if d.missing_dependencies dependency_error

unfoldable pub init_create_device : Storage → Result Change
init_create_device d = do raise_if d.exists value_error; check_dependencies d; ok creates_device

unfoldable pub init_destroy_device : Storage → Result Change
init_destroy_device d = do check_dependencies d; ok destroys_device

unfoldable pub init_resize_device : Storage → ℕ → Result Change
init_resize_device d newsize = do
  raise_if (not (resizable d)) value_error
  raise_if (d.current_size == newsize) value_error
  raise_if (ltb newsize (min_size d)) value_error
  raise_if (is_set (max_size d) && ltb (max_size d) newsize) value_error
  check_dependencies d
  ok (resizes_device (if ltb 0 d.target_size then d.target_size else get_size d) newsize)

abbrev pub format_or : Format → Option Format → Format
format_or own none = own
format_or own (some given) = given

abbrev pub orig_format : Format → Format → Option Format → Format
orig_format own blank none = blank
orig_format own blank (some given) = own

-- The format that is given, or that of the device. The id is that of a new blank format.
unfoldable pub init_create_format : Storage → Option Format → ℕ → Result Change
init_create_format d fmt id =
    let format = format_or d.format fmt in
    do
      raise_if d.format_immutable value_error
      raise_if format.exists value_error
      raise_if (not format.formattable) value_error
      ok (creates_format (orig_format d.format (blank_format id false) fmt) format)

unfoldable pub init_destroy_format : Storage → Result Change
init_destroy_format d = do raise_if d.format_immutable value_error; ok (destroys_format d.format)

unfoldable pub init_resize_format : Storage → ℕ → Result Change
init_resize_format d newsize = do
  raise_if d.format_immutable value_error
  raise_if (not (format_resizable d.format)) value_error
  raise_if (format_current_size d.format == newsize) value_error
  ok (
      resizes_format
        (if ltb 0 d.format.target_size then d.format.target_size else format_current_size d.format)
        newsize)

-- The outcome of the dry run of the method that carries the change out is given.
unfoldable pub init_configure_format : Storage → ℕ → ℕ → Result (Unit {0}) → Result Change
init_configure_format d attr new_value dry_run = do
  raise_if (not (d.format.configurable attr)) value_error
  dry_run
  ok (configures_format attr (d.format.attributes attr) new_value)

unfoldable pub init_configure_device : Storage → ℕ → ℕ → Result (Unit {0}) → Result Change
init_configure_device d attr new_value dry_run = do
  check_dependencies d
  raise_if (not (d.configurable attr)) value_error
  dry_run
  ok (configures_device attr (d.attributes attr) new_value)

-- `ignore_skip_activation += 1` and `-= 1`, where the device has it.
abbrev pub add_skip : ℤ → Storage → Storage
add_skip n d = record d {
  ignore_skip_activation = elim d.ignore_skip_activation [
    | some count ↦ some (count +ℤ n)
    | none ↦ none
  ];
}

abbrev pub set_attribute : (ℕ → ℕ) → ℕ → ℕ → ℕ → ℕ
set_attribute attributes attr value a = if a == attr then value else attributes a

-- What `apply` and `cancel` do to the device, where they do not return at once.
unfoldable pub apply_change : Change → Storage → Result Storage
unfolding clear_format set_target_size set_format_target
apply_change creates_device d = ok d
apply_change destroys_device d = ok (add_skip (pos 1) d)
apply_change (resizes_device orig target) d = set_target_size d target
apply_change (creates_format orig fmt) d = set_format d fmt
apply_change (destroys_format orig) d = do d' ← clear_format d; ok (add_skip (pos 1) d')
apply_change (resizes_format orig target) d = do
  f ← set_format_target d.format target
  ok (add_skip (pos 1) (record d { format = f }))
apply_change (configures_format attr old new) d = ok (
    add_skip (pos 1) (record d {
      format = record d.format { attributes = set_attribute d.format.attributes attr new };
    }))
apply_change (configures_device attr old new) d =
    ok (record d { attributes = set_attribute d.attributes attr new })

unfoldable pub cancel_change : Change → Storage → Result Storage
unfolding set_format set_target_size set_format_target
cancel_change creates_device d = ok d
cancel_change destroys_device d = ok (add_skip (negsuc 0) d)
cancel_change (resizes_device orig target) d = set_target_size d orig
cancel_change (creates_format orig fmt) d = set_format d orig
cancel_change (destroys_format orig) d = do d' ← set_format d orig; ok (add_skip (negsuc 0) d')
cancel_change (resizes_format orig target) d = do
  f ← set_format_target d.format orig
  ok (add_skip (negsuc 0) (record d { format = f }))
cancel_change (configures_format attr old new) d = ok (
    add_skip (negsuc 0) (record d {
      format = record d.format { attributes = set_attribute d.format.attributes attr old };
    }))
cancel_change (configures_device attr old new) d =
    ok (record d { attributes = set_attribute d.attributes attr old })

-- An action: what it changes, `_applied`, and the device.
pub record Pending : Type 0 where
  pub change : Change
  pub applied : Bool
  pub device : Storage

-- `apply` and `cancel`
unfoldable pub apply : Pending → Result Pending
unfolding apply_change
apply a =
    if a.applied
    then ok a
    else (apply_change a.change a.device >>= λ d. ok (record a { applied = true; device = d }))

unfoldable pub cancel : Pending → Result Pending
unfolding cancel_change
cancel a =
    if not a.applied
    then ok a
    else (cancel_change a.change a.device >>= λ d. ok (record a { applied = false; device = d }))

-- ===== src/Changes/Device.antt =====
-- The sizes and the format of a device: `StorageDevice` of blivet/devices/storage.py, and the sizes of
-- `DeviceFormat` of blivet/formats/__init__.py.
use blivet.Prelude.{
  ℕ, suc, max, Bool, false, ◌&&◌, ◌||◌, not, Option, none, some, Result, ok, err, ◌>>=◌, ◌>>◌,
  raise_if, value_error, device_error, device_format_error, ℤ, ltb, ◌==◌, if◌then◌else◌,
}

-- A size of 0 stands for no size; attributes that a configure action may change are numbered.
pub record Format : Type 0 where
  pub id : ℕ
  pub exists : Bool
  pub size : ℕ
  pub target_size : ℕ
  pub min_instance_size : ℕ
  pub class_min_size : ℕ
  pub max_size : ℕ
  -- `_resizable`
  pub may_resize : Bool
  pub formattable : Bool
  pub attributes : ℕ → ℕ
  pub configurable : ℕ → Bool

pub record Storage : Type 0 where
  pub exists : Bool
  -- `_size`, `_target_size` and `current_size`
  pub own_size : ℕ
  pub target_size : ℕ
  pub current_size : ℕ
  -- `_resizable`
  pub may_resize : Bool
  pub growable : Bool
  pub format : Format
  pub format_immutable : Bool
  -- with LUKS and a child: the smallest size of the child, with the header
  pub luks_min_size : Option ℕ
  -- the method of the class
  pub align_target_size : ℕ → ℕ
  pub missing_dependencies : Bool
  pub attributes : ℕ → ℕ
  pub configurable : ℕ → Bool
  -- the counter, where the class has it
  pub ignore_skip_activation : Option ℤ
  -- the id that the next new format gets
  pub next_id : ℕ

abbrev pub is_set : ℕ → Bool
is_set n = not (n == 0)

-- `DeviceFormat.resizable`, `min_size` and `current_size`
abbrev pub format_resizable : Format → Bool
format_resizable f = f.may_resize && f.exists

abbrev pub format_min_size : Format → ℕ
format_min_size f = max f.min_instance_size f.class_min_size

abbrev pub format_current_size : Format → ℕ
format_current_size f = if f.exists then f.size else 0

-- The setter of `DeviceFormat.target_size`
unfoldable pub set_format_target : Format → ℕ → Result Format
set_format_target f newsize = do
  raise_if (not f.exists) device_format_error
  raise_if (not (format_resizable f)) device_format_error
  raise_if (ltb newsize (format_min_size f)) value_error
  raise_if (is_set f.max_size && not (ltb newsize f.max_size)) value_error
  ok (record f { target_size = newsize })

-- `get_format(None, exists=exists)`
abbrev pub blank_format : ℕ → Bool → Format
blank_format id exists = record {
  id = id;
  exists = exists;
  size = 0;
  target_size = 0;
  min_instance_size = 0;
  class_min_size = 0;
  max_size = 0;
  may_resize = false;
  formattable = false;
  attributes = λ a. 0;
  configurable = λ a. false;
}

-- `StorageDevice.resizable`, `size`, `min_size` and `max_size`
abbrev pub resizable : Storage → Bool
resizable d = d.may_resize && d.exists && (format_resizable d.format || not d.format.exists)

abbrev pub get_size : Storage → ℕ
get_size d = if d.exists && resizable d && is_set d.target_size then d.target_size else d.own_size

abbrev pub min_size : Storage → ℕ
min_size d = elim d.luks_min_size [
  | some least ↦ if resizable d then least else d.current_size
  | none ↦ if resizable d then d.align_target_size (format_min_size d.format) else d.current_size
]

abbrev pub max_size : Storage → ℕ
max_size d = if resizable d then d.align_target_size d.format.max_size else d.current_size

-- `StorageDevice._set_target_size`
unfoldable pub set_target_size : Storage → ℕ → Result Storage
set_target_size d newsize = do
  raise_if (is_set (max_size d) && ltb (max_size d) newsize) value_error
  raise_if (is_set (min_size d) && ltb newsize (min_size d)) value_error
  raise_if (not (d.align_target_size newsize == newsize)) value_error
  ok (record d { target_size = newsize })

-- `StorageDevice._set_size`
unfoldable pub set_size : Storage → ℕ → Result Storage
set_size d newsize = do
  raise_if
      (not d.exists
        && ((is_set d.format.max_size && ltb d.format.max_size newsize)
            || (is_set (format_min_size d.format) && ltb newsize (format_min_size d.format))))
      device_error
  ok (record d { own_size = newsize })

-- The check of the size in `_set_format`: a device that can grow takes the size that it needs.
unfoldable pub check_format : Storage → Format → Result Storage
unfolding set_size
check_format d fmt =
    if fmt.exists
    then ok d
    else if is_set fmt.max_size && ltb fmt.max_size (get_size d)
    then err device_error
    else if is_set (format_min_size fmt) && ltb (get_size d) (format_min_size fmt)
    then (if d.growable then set_size d (format_min_size fmt) else err device_error)
    else ok d

-- `StorageDevice._set_format` of a format, and of None.
unfoldable pub set_format : Storage → Format → Result Storage
unfolding check_format
set_format d fmt = do
  d' ← check_format d fmt
  ok (if d'.format.id == fmt.id then d' else record d' { format = fmt })

unfoldable pub clear_format : Storage → Result Storage
unfolding set_format
clear_format d = set_format (record d { next_id = suc d.next_id }) (blank_format d.next_id d.exists)

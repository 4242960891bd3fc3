-- ===== src/Changes/Tests.antt =====
-- A disk with a file system, and one that is planned, as actions of blivet/deviceaction.py change them.
use blivet.Prelude.{◌≡◌, refl, true, false, some, none, err, ok, value_error, pos, arith}
use blivet.Changes.Device.{Format, Storage, blank_format, set_target_size, check_format}
use blivet.Changes.Action.{
  Pending, resizes_device, creates_format, destroys_format, init_resize_device, init_create_format,
  init_destroy_format, apply, cancel,
}
use blivet.Changes.Reverse.{cancel-apply_resize, cancel-apply_grown}

abbrev ext4 : Format
ext4 = record (blank_format 1 true) {
  size = 1000;
  target_size = 1000;
  class_min_size = 10;
  max_size = 5000;
  may_resize = true;
  formattable = true;
}

abbrev volume : Storage
volume = record {
  exists = true;
  own_size = 1000;
  target_size = 1000;
  current_size = 1000;
  may_resize = true;
  growable = false;
  format = ext4;
  format_immutable = false;
  luks_min_size = none;
  align_target_size = λ n. n;
  missing_dependencies = false;
  attributes = λ a. 0;
  configurable = λ a. false;
  ignore_skip_activation = some (pos 0);
  next_id = 7;
}

abbrev planned : Storage
planned = record volume {
  exists = false;
  own_size = 5;
  target_size = 0;
  growable = true;
  format = blank_format 2 false;
}

abbrev new_ext4 : Format
new_ext4 = record ext4 { id = 3; exists = false; max_size = 0 }

shrinks : init_resize_device volume 500 ≡ ok (resizes_device 1000 500)
unfolding init_resize_device
shrinks = refl

shrunk :
    apply (record { change = resizes_device 1000 500; applied = false; device = volume })
    ≡ ok (record {
      change = resizes_device 1000 500;
      applied = true;
      device = record volume { target_size = 500 };
    })
unfolding apply
shrunk = refl

-- A size below that of the class is refused.
too_small : init_resize_device volume 9 ≡ err value_error
unfolding init_resize_device
too_small = refl

accepts_own : set_target_size volume 1000 ≡ ok volume
unfolding set_target_size
accepts_own = refl

cancel-apply_resize_example :
    cancel (record {
      change = resizes_device 1000 500;
      applied = true;
      device = record volume { target_size = 500 };
    })
    ≡ ok (record { change = resizes_device 1000 500; applied = false; device = volume })
cancel-apply_resize_example =
    cancel-apply_resize volume 500 shrinks (omega arith) accepts_own shrunk

destroys : init_destroy_format volume ≡ ok (destroys_format ext4)
unfolding init_destroy_format
destroys = refl

creates : init_create_format volume (some new_ext4) 8 ≡ ok (creates_format ext4 new_ext4)
unfolding init_create_format
creates = refl

fits : check_format volume new_ext4 ≡ ok volume
unfolding check_format
fits = refl

creates_planned :
    init_create_format planned (some new_ext4) 8
    ≡ ok (creates_format (blank_format 2 false) new_ext4)
unfolding init_create_format
creates_planned = refl

cancel-apply_grown_example :
    (a : Pending) × (apply (record {
      change = creates_format (blank_format 2 false) new_ext4;
      applied = false;
      device = planned;
    })
      ≡ ok a)
    × (cancel a
        ≡ ok (record {
          change = creates_format (blank_format 2 false) new_ext4;
          applied = false;
          device = record planned { own_size = 10 };
        }))
cancel-apply_grown_example =
    cancel-apply_grown planned new_ext4 8 creates_planned refl refl refl refl refl refl
      (omega arith) refl

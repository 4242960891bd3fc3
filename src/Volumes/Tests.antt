-- ===== src/Volumes/Tests.antt =====
-- A group of two PVs, with volumes that fit and one that does not.
use blivet.Prelude.{
  ℕ, ◌≡◌, ◌⊎◌, refl, true, false, Option, some, ok, device_error, ℤ, pos, ◌+ℤ◌, ◌-ℤ◌, ◌≤ℤ◌,
  if◌then◌else◌, [], ◌∷◌,
}
use blivet.Raid.Level.{raid1}
use blivet.Raid.Sizes.{get_space, get_base_member_size, base_member_size}
use blivet.Volumes.Space.{
  Volume, VolumeGroup, vg_size, free_space, reserved_space, used_space, vg_space_used,
  data_vg_space_used, metadata_vg_space_used, raided_size, pv_usable_space, pmspare_size,
}
use blivet.Volumes.Group.{
  returned, raised, is_volume, allocate, pv_sizes, enter_volume, with_free, set_free, needs_space,
  add_log_vol, remove_log_vol,
}
use blivet.Volumes.Accounting.{owed, give}
use blivet.Volumes.Undo.{add_log_vol-accounts, remove_log_vol-add_log_vol}
use blivet.Volumes.Fail.{add_log_vol-raises}
use blivet.Volumes.Resize.{set_size, change_in, with_size, aligned, check_limits}
use blivet.Volumes.Room.{IsLinear, extra}
use blivet.Volumes.SetSize.{set_size-free, set_size-overdraws}
use blivet.Volumes.Sample.{exact, exact-Aligns, group, root}

-- The volume is mirrored, and takes the same on both PVs.
abbrev mirror : Volume
mirror = record root {
  id = 11;
  pv_specs = record { pv = 1; size = 60 } ∷ record { pv = 2; size = 60 } ∷ [];
  raid = some (raid1, 2);
}

-- The second PV lacks the space.
abbrev large : Volume
large = record root {
  id = 12;
  size = 160;
  pv_specs = record { pv = 1; size = 30 } ∷ record { pv = 2; size = 130 } ∷ [];
}

empty_space : free_space exact group ≡ ok (pos 200)
unfolding free_space vg_size used_space reserved_space pv_usable_space pmspare_size ◌+ℤ◌ ◌-ℤ◌
empty_space = refl

mirror_space : vg_space_used exact 4 mirror ≡ ok (pos 120)
unfolding vg_space_used data_vg_space_used metadata_vg_space_used raided_size get_space
    base_member_size get_base_member_size ◌+ℤ◌ ◌-ℤ◌
mirror_space = refl

abbrev free_after : ℕ → Option ℕ
free_after = set_free group.free 1 40

added : add_log_vol exact group root ≡ returned (with_free (enter_volume group root) free_after)
unfolding add_log_vol ◌+ℤ◌ ◌-ℤ◌
added = refl

add_log_vol-accounts_example :
    (is_volume root group.lvs ≡ false)
    × (needs_space group root ≡ true
        → (free : ℤ) × (free_space exact group ≡ ok free) × (pos 60 ≤ℤ free))
    × ((j : ℕ)
        → give (if root.exists then 0 else owed (pv_sizes root) j) (free_after j) ≡ group.free j)
add_log_vol-accounts_example = add_log_vol-accounts exact group root added

remove_log_vol-add_log_vol_example :
    remove_log_vol (with_free (enter_volume group root) free_after) root ≡ returned group
remove_log_vol-add_log_vol_example = remove_log_vol-add_log_vol exact group root added refl

abbrev free_failed : ℕ → Option ℕ
free_failed = set_free group.free 1 70

failed :
    add_log_vol exact group large
    ≡ raised device_error (with_free (enter_volume group large) free_failed)
unfolding add_log_vol ◌+ℤ◌ ◌-ℤ◌
failed = refl

add_log_vol-raises_example :
    (with_free (enter_volume group large) free_failed ≡ group)
    ⊎ ((is_volume large group.lvs ≡ false)
        × (is_volume large (enter_volume group large).lvs ≡ true)
        × (allocate (pv_sizes large) group.free ≡ raised device_error free_failed))
add_log_vol-raises_example = add_log_vol-raises exact group large failed

-- A volume with a cache, in the group.
abbrev cached : Volume
cached = record root { cache = some (record { size = 20; md_size = 4; pv_specs = [] }) }

abbrev with_cached : VolumeGroup
with_cached = record group { lvs = cached ∷ [] }

cached-IsLinear : IsLinear cached
cached-IsLinear = record { planned = refl; not_thin = refl; not_vdo = refl; not_raid = refl }

cached_space : free_space exact with_cached ≡ ok (pos 112)
unfolding free_space vg_size used_space reserved_space pv_usable_space pmspare_size vg_space_used
    data_vg_space_used metadata_vg_space_used raided_size ◌+ℤ◌ ◌-ℤ◌
cached_space = refl

abbrev smaller : VolumeGroup
smaller = change_in (with_size (pos 40)) with_cached cached

made_smaller : set_size exact with_cached cached 41 ≡ ok smaller
unfolding set_size check_limits
made_smaller = refl

set_size-free_example :
    (f' : ℤ) × (free_space exact smaller ≡ ok f')
    × (f' +ℤ aligned exact with_cached cached 41 ≡ pos 112 +ℤ exact.up (pos 60) 4)
    × (pos 0 ≤ℤ pos 112 → pos 0 ≤ℤ f' +ℤ extra cached)
set_size-free_example =
    set_size-free exact with_cached [] [] cached 41 exact-Aligns cached-IsLinear refl refl
      cached_space made_smaller

set_size-overdraws_example :
    (vg' : VolumeGroup) × (f' : ℤ) × (set_size exact with_cached cached 196 ≡ ok vg')
    × (free_space exact vg' ≡ ok f')
    × (f' +ℤ extra cached ≡ pos 0)
set_size-overdraws_example =
    set_size-overdraws exact with_cached [] [] cached 196 exact-Aligns cached-IsLinear refl refl
      cached_space (unfold ◌+ℤ◌ in refl) (unfold check_limits in refl)

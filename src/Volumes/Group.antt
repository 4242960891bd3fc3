-- ===== src/Volumes/Group.antt =====
-- `_add_log_vol` and `_remove_log_vol` of `LVMVolumeGroupDevice` in blivet/devices/lvm.py. A call that
-- raises leaves behind what it has changed so far.
use blivet.Prelude.{
  ℕ, ◌+◌, ◌-◌, Bool, true, false, ◌&&◌, ◌||◌, not, Option, none, some, Result, ok, err, Exception,
  device_error, type_error, value_error, ℤ, pos, ltb_ℤ, ltb, ◌==◌, if◌then◌else◌, List, [], ◌∷◌,
  ◌++◌, elem, without,
}
use blivet.Volumes.Space.{Rounding, PvSpec, Volume, VolumeGroup, cache_of, free_space}

-- A call that changes a state returned, or raised; in both cases the state is what it left.
pub data Outcome {ℓ} (S : Type ℓ) : Type ℓ where
  returned : S → Outcome S
  raised : Exception → S → Outcome S

-- The rest of a function, on the state that the call before it left; `whole` puts a part of the state
-- back in its place.
abbrev pub after {ℓ κ} :
    {S : Type ℓ} {T : Type κ} → Outcome S → (S → T) → (S → Outcome T) → Outcome T
after (returned s) whole rest = rest s
after (raised e s) whole rest = raised e (whole s)

abbrev pub is_volume : Volume → List Volume → Bool
is_volume lv [] = false
is_volume lv (x ∷ xs) = lv.id == x.id || is_volume lv xs

-- `list.remove` of a volume
abbrev pub without_volume : Volume → List Volume → List Volume
without_volume lv [] = []
without_volume lv (x ∷ xs) = if x.id == lv.id then xs else x ∷ without_volume lv xs

abbrev pub set_free : (ℕ → Option ℕ) → ℕ → ℕ → ℕ → Option ℕ
set_free free pv n j = if j == pv then some n else free j

-- The loop over the specifications as an LV is added: the free space of each PV is checked and reduced.
-- A PV that is in no group has None there.
unfoldable pub allocate : List PvSpec → (ℕ → Option ℕ) → Outcome (ℕ → Option ℕ)
allocate [] free = returned free
allocate (spec ∷ specs) free = elim (free spec.pv) [
  | none ↦ raised type_error free
  | some n ↦
      let rest = allocate specs (set_free free spec.pv (n - spec.size)) in
      if ltb n spec.size then raised device_error free else rest
]

unfoldable pub release : List PvSpec → (ℕ → Option ℕ) → Outcome (ℕ → Option ℕ)
release [] free = returned free
release (spec ∷ specs) free = elim (free spec.pv) [
  | none ↦ raised type_error free
  | some n ↦ release specs (set_free free spec.pv (n + spec.size))
]

-- The PVs that an LV and its cache take space of.
abbrev pub pv_sizes : Volume → List PvSpec
pv_sizes lv = lv.pv_specs ++ (cache_of lv).pv_specs

abbrev pub change_snapshots : (List ℕ → List ℕ) → Option ℕ → (ℕ → List ℕ) → ℕ → List ℕ
change_snapshots f none snapshots j = snapshots j
change_snapshots f (some origin) snapshots j = if j == origin then f (snapshots j) else snapshots j

-- What `_add_log_vol` does once the checks have passed.
abbrev pub enter_volume : VolumeGroup → Volume → VolumeGroup
enter_volume vg lv = record vg {
  lvs = vg.lvs ++ lv ∷ [];
  snapshots = change_snapshots (λ ids. ids ++ lv.id ∷ []) lv.origin vg.snapshots;
}

abbrev pub with_free : VolumeGroup → (ℕ → Option ℕ) → VolumeGroup
with_free vg free = record vg { free = free }

abbrev pub account : VolumeGroup → Volume → Outcome VolumeGroup
account vg lv =
    if lv.exists
    then returned vg
    else after (allocate (pv_sizes lv) vg.free) (with_free vg)
        (λ free. returned (with_free vg free))

-- Whether the LV is one for which the free space of the group is checked.
abbrev pub needs_space : VolumeGroup → Volume → Bool
needs_space vg lv = not lv.exists && not vg.growable && not (lv.is_thin_lv || lv.is_vdo_lv)

abbrev pub check_space : VolumeGroup → Volume → Result ℤ → Outcome VolumeGroup → Outcome VolumeGroup
check_space vg lv (err e) rest = if needs_space vg lv then raised e vg else rest
check_space vg lv (ok free) rest =
    if needs_space vg lv && ltb_ℤ free (pos lv.size) then raised device_error vg else rest

unfoldable pub add_log_vol : Rounding → VolumeGroup → Volume → Outcome VolumeGroup
unfolding allocate free_space
add_log_vol ops vg lv =
    if is_volume lv vg.lvs
    then raised device_error vg
    else check_space vg lv (free_space ops vg) (account (enter_volume vg lv) lv)

-- `origin.snapshots.remove` raises ValueError if the LV is not there.
abbrev pub knows_snapshot : VolumeGroup → Volume → Bool
knows_snapshot vg lv = elim lv.origin [
  | none ↦ true
  | some origin ↦ elem lv.id (vg.snapshots origin)
]

abbrev pub leave_volume : VolumeGroup → Volume → VolumeGroup
leave_volume vg lv = record vg {
  lvs = without_volume lv vg.lvs;
  snapshots = change_snapshots (without lv.id) lv.origin vg.snapshots;
}

abbrev pub give_back : VolumeGroup → Volume → Outcome VolumeGroup
give_back vg lv =
    if lv.exists
    then returned vg
    else after (release (pv_sizes lv) vg.free) (with_free vg) (λ free. returned (with_free vg free))

unfoldable pub remove_log_vol : VolumeGroup → Volume → Outcome VolumeGroup
unfolding release
remove_log_vol vg lv =
    if not (is_volume lv vg.lvs)
    then raised device_error vg
    else if not (knows_snapshot vg lv)
    then raised value_error (record vg { lvs = without_volume lv vg.lvs })
    else give_back (leave_volume vg lv) lv

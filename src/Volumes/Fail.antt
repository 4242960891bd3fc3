-- ===== src/Volumes/Fail.antt =====
-- What `_add_log_vol` of blivet/devices/lvm.py leaves behind where it raises.
use blivet.Prelude.{
  ℕ, ◌⊎◌, ◌≡◌, sym, ap, true, false, ◌&&◌, Option, Result, ok, err, Exception, device_error, ℤ, pos,
  ltb_ℤ, inl, inr, Bool-cases,
}
use blivet.Volumes.Space.{Rounding, Volume, VolumeGroup, free_space}
use blivet.Volumes.Group.{
  Outcome, returned, raised, is_volume, allocate, pv_sizes, enter_volume, with_free, account,
  needs_space, check_space, add_log_vol,
}
use blivet.Volumes.Accounting.{state_of}
use blivet.Volumes.Undo.{Outcome-cases, is_volume-snoc}

exception_of {ℓ} : {S : Type ℓ} → Outcome S → Exception
exception_of (returned s) = device_error
exception_of (raised e s) = e

raised-injective {ℓ} :
    {S : Type ℓ} {d e : Exception} {s t : S} → raised d s ≡ raised e t → (d ≡ e) × (s ≡ t)
unfolding exception_of state_of
raised-injective h = (ap exception_of h, ap state_of h)

account-raised :
    (vg : VolumeGroup) (lv : Volume) {e : Exception} {vg' : VolumeGroup}
    → account vg lv ≡ raised e vg'
    → (free : ℕ → Option ℕ) × (allocate (pv_sizes lv) vg.free ≡ raised e free)
      × (vg' ≡ with_free vg free)
account-raised vg lv h = elim (Bool-cases lv.exists) [
  | inl there ↦ let h' = rw there at h in cc
  | inr planned ↦ elim (Outcome-cases (allocate (pv_sizes lv) vg.free)) [
    | inl (free, done) ↦ let h' = rw (planned, done) at h in cc
    | inr (e', free, failed) ↦
        let (same, left) = raised-injective (rw (planned, failed) at h) in
        (free, rw (← same) failed, sym left)
  ]
]

check_space-raised :
    (vg : VolumeGroup) (lv : Volume) (result : Result ℤ) (rest : Outcome VolumeGroup)
    {e : Exception} {vg' : VolumeGroup}
    → check_space vg lv result rest ≡ raised e vg'
    → (vg' ≡ vg) ⊎ (rest ≡ raised e vg')
check_space-raised vg lv (err d) rest h = elim (Bool-cases (needs_space vg lv)) [
  | inl needs ↦ inl (sym (raised-injective (rw needs at h)).1)
  | inr spared ↦ inr (rw spared at h)
]
check_space-raised vg lv (ok free) rest h =
    elim (Bool-cases (needs_space vg lv && ltb_ℤ free (pos lv.size))) [
      | inl short ↦ inl (sym (raised-injective (rw short at h)).1)
      | inr enough ↦ inr (rw enough at h)
    ]

-- Where `_add_log_vol` raises, either it has changed nothing; or a PV lacked the space for its share of
-- a volume that the group did not have, and the group has the volume all the same, and the PVs have
-- lost what was taken of them before.
pub add_log_vol-raises :
    (ops : Rounding) (vg : VolumeGroup) (lv : Volume) {e : Exception} {vg' : VolumeGroup}
    → add_log_vol ops vg lv ≡ raised e vg'
    → (vg' ≡ vg)
      ⊎ ((is_volume lv vg.lvs ≡ false)
          × (is_volume lv vg'.lvs ≡ true)
          × (allocate (pv_sizes lv) vg.free ≡ raised e vg'.free))
unfolding add_log_vol
add_log_vol-raises ops vg lv h = elim (Bool-cases (is_volume lv vg.lvs)) [
  | inl listed ↦ inl (sym (raised-injective (rw listed at h)).1)
  | inr new ↦
      elim (check_space-raised vg lv (free_space ops vg) (account (enter_volume vg lv) lv)
        (rw new at h)) [
          | inl same ↦ inl same
          | inr failed ↦
              let (free, lacks, e) = account-raised (enter_volume vg lv) lv failed in
              inr (new, rw e (is_volume-snoc lv vg.lvs), rw e lacks)
        ]
]

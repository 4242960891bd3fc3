-- ===== src/Volumes/Undo.antt =====
-- `_remove_log_vol` of blivet/devices/lvm.py takes back what `_add_log_vol` did, where that returns, and
-- what is left where it raises.
use blivet.Prelude.{
  ℕ, ◌⊎◌, ◌≡◌, refl, sym, ap, ◌∙◌, fun_ext, Bool, true, false, not, Option, none, some, Result, ok,
  err, Exception, ℤ, pos, ◌≤ℤ◌, ltb_ℤ, ◌==◌, ==_iff, ==_refl, if◌then◌else◌, List, [], ◌∷◌, ◌++◌,
  elem, without, arith, inl, inr, Bool-cases,
}
use blivet.Volumes.Space.{Rounding, Volume, VolumeGroup, free_space}
use blivet.Volumes.Group.{
  Outcome, returned, raised, is_volume, without_volume, allocate, release, pv_sizes,
  change_snapshots, enter_volume, with_free, account, needs_space, check_space, add_log_vol,
  knows_snapshot, leave_volume, give_back, remove_log_vol,
}
use blivet.Volumes.Accounting.{
  owed, give, give_zero, returned-injective, allocate-owed, release-allocate,
}

pub is_volume-snoc : (lv : Volume) (lvs : List Volume) → is_volume lv (lvs ++ lv ∷ []) ≡ true
is_volume-snoc lv [] = ground arith
is_volume-snoc lv (x ∷ lvs) = ground (arith, is_volume-snoc lv lvs)

without_volume-snoc :
    (lv : Volume) (lvs : List Volume)
    → is_volume lv lvs ≡ false
    → without_volume lv (lvs ++ lv ∷ []) ≡ lvs
without_volume-snoc lv [] h = rw (==_refl lv.id) refl
without_volume-snoc lv (x ∷ lvs) h =
    let other : (x.id == lv.id) ≡ false = ground (arith, h) in
    rw other (ap (λ xs. x ∷ xs) (without_volume-snoc lv lvs (ground (arith, h))))

without-snoc : (i : ℕ) (ids : List ℕ) → elem i ids ≡ false → without i (ids ++ i ∷ []) ≡ ids
without-snoc i [] h = rw (==_refl i) refl
without-snoc i (x ∷ ids) h =
    let other : (x == i) ≡ false = ground (arith, h) in
    rw other (ap (λ xs. x ∷ xs) (without-snoc i ids (ground (arith, h))))

elem-last : (i : ℕ) (ids : List ℕ) → elem i (ids ++ i ∷ []) ≡ true
elem-last i [] = ground arith
elem-last i (x ∷ ids) = ground (arith, elem-last i ids)

-- The volume is not among the snapshots of its origin.
abbrev pub is_new_snapshot : VolumeGroup → Volume → Bool
is_new_snapshot vg lv = elim lv.origin [
  | none ↦ true
  | some origin ↦ not (elem lv.id (vg.snapshots origin))
]

snapshots-back :
    (i : ℕ) (origin : Option ℕ) (snapshots : ℕ → List ℕ)
    → elim origin as (λ _. Bool) [ none ↦ true | some o ↦ not (elem i (snapshots o)) ] ≡ true
    → change_snapshots (without i) origin (change_snapshots (λ ids. ids ++ i ∷ []) origin snapshots)
      ≡ snapshots
snapshots-back i none snapshots h = refl
snapshots-back i (some o) snapshots h = fun_ext (λ j. elim (Bool-cases (j == o)) [
  | inl same ↦
      let e : elem i (snapshots j) ≡ elem i (snapshots o) =
        ap (λ k. elem i (snapshots k)) ((==_iff j o).0 same) in
      rw same (without-snoc i (snapshots j) (ground (arith, e)))
  | inr other ↦ rw other refl
])

-- What a call that returned found and did.
record Added (ops : Rounding) (vg : VolumeGroup) (lv : Volume) (vg' : VolumeGroup) : Type 0 where
  new : is_volume lv vg.lvs ≡ false
  fits :
      needs_space vg lv ≡ true → (free : ℤ) × (free_space ops vg ≡ ok free) × (pos lv.size ≤ℤ free)
  accounted : account (enter_volume vg lv) lv ≡ returned vg'

pub Outcome-cases {ℓ} :
    {S : Type ℓ} (o : Outcome S)
    → ((s : S) × (o ≡ returned s)) ⊎ ((e : Exception) × (s : S) × (o ≡ raised e s))
Outcome-cases (returned s) = inl (s, refl)
Outcome-cases (raised e s) = inr (e, s, refl)

known_snapshot : (vg : VolumeGroup) (lv : Volume) → knows_snapshot (enter_volume vg lv) lv ≡ true
known_snapshot vg lv = go lv.origin
  where
    go :
        (origin : Option ℕ)
        → elim origin as (λ _. Bool) [
          | none ↦ true
          | some o ↦ elem lv.id (change_snapshots (λ ids. ids ++ lv.id ∷ []) origin vg.snapshots o)
        ]
          ≡ true
    go none = refl
    go (some o) = rw (==_refl o) (elem-last lv.id (vg.snapshots o))

left :
    (vg : VolumeGroup) (lv : Volume) (free : ℕ → Option ℕ)
    → is_volume lv vg.lvs ≡ false
    → is_new_snapshot vg lv ≡ true
    → record (leave_volume (enter_volume vg lv) lv) { free = free } ≡ record vg { free = free }
left vg lv free new fresh = λ i. record vg {
  free = free;
  lvs = without_volume-snoc lv vg.lvs new i;
  snapshots = snapshots-back lv.id lv.origin vg.snapshots fresh i;
}

check_space-returned :
    (vg : VolumeGroup) (lv : Volume) (result : Result ℤ) (rest : Outcome VolumeGroup)
    {vg' : VolumeGroup}
    → check_space vg lv result rest ≡ returned vg'
    → (rest ≡ returned vg')
      × (needs_space vg lv ≡ true → (free : ℤ) × (result ≡ ok free) × (pos lv.size ≤ℤ free))
check_space-returned vg lv (err e) rest h = elim (Bool-cases (needs_space vg lv)) [
  | inl needs ↦ let h' = rw needs at h in cc
  | inr spared ↦ (rw spared at h, λ needs. cc)
]
check_space-returned vg lv (ok free) rest h = elim (Bool-cases (needs_space vg lv)) [
  | inr spared ↦ (rw spared at h, λ needs. cc)
  | inl needs ↦ elim (Bool-cases (ltb_ℤ free (pos lv.size))) [
    | inl short ↦ let h' = rw (needs, short) at h in cc
    | inr enough ↦ (rw (needs, enough) at h, λ _. (free, refl, ground (arith, enough)))
  ]
]

add_log_vol-Added :
    (ops : Rounding) (vg : VolumeGroup) (lv : Volume) {vg' : VolumeGroup}
    → add_log_vol ops vg lv ≡ returned vg'
    → Added ops vg lv vg'
unfolding add_log_vol
add_log_vol-Added ops vg lv h = elim (Bool-cases (is_volume lv vg.lvs)) [
  | inl listed ↦ let h' = rw listed at h in cc
  | inr new ↦
      let (done, fits) =
        check_space-returned vg lv (free_space ops vg) (account (enter_volume vg lv) lv)
          (rw new at h) in
      record { new = new; fits = fits; accounted = done }
]

account-cases :
    (vg : VolumeGroup) (lv : Volume) {vg' : VolumeGroup}
    → account vg lv ≡ returned vg'
    → ((lv.exists ≡ true) × (vg' ≡ vg))
      ⊎ ((free : ℕ → Option ℕ) × (lv.exists ≡ false)
          × (allocate (pv_sizes lv) vg.free ≡ returned free)
          × (vg' ≡ with_free vg free))
account-cases vg lv h = elim (Bool-cases lv.exists) [
  | inl there ↦ inl (there, sym (returned-injective (rw there at h)))
  | inr planned ↦ elim (Outcome-cases (allocate (pv_sizes lv) vg.free)) [
    | inl (free, done) ↦
        inr (free, planned, done, sym (returned-injective (rw (planned, done) at h)))
    | inr (e, left, failed) ↦ let h' = rw (planned, failed) at h in cc
  ]
]

-- Where `_add_log_vol` returns: the group did not have the volume; a planned volume, not thin and not of
-- VDO, in a group that does not grow, is not larger than the free space was; and each PV has what it had
-- less what the volume and its cache take of it, if the volume is planned.
pub add_log_vol-accounts :
    (ops : Rounding) (vg : VolumeGroup) (lv : Volume) {vg' : VolumeGroup}
    → add_log_vol ops vg lv ≡ returned vg'
    → (is_volume lv vg.lvs ≡ false)
      × (needs_space vg lv ≡ true
          → (free : ℤ) × (free_space ops vg ≡ ok free) × (pos lv.size ≤ℤ free))
      × ((pv : ℕ)
          → give (if lv.exists then 0 else owed (pv_sizes lv) pv) (vg'.free pv) ≡ vg.free pv)
add_log_vol-accounts ops vg lv h =
    let added = add_log_vol-Added ops vg lv h in
    (
      added.new,
      added.fits,
      λ pv. elim (account-cases (enter_volume vg lv) lv added.accounted) [
        | inl (there, e) ↦ rw (there, e) (give_zero (vg.free pv))
        | inr (free, planned, done, e) ↦
            rw (planned, e) (allocate-owed (pv_sizes lv) vg.free done pv)
      ],
    )

give_back-exists :
    (vg : VolumeGroup) (lv : Volume) → lv.exists ≡ true → give_back vg lv ≡ returned vg
give_back-exists vg lv there = rw there refl

give_back-planned :
    (vg : VolumeGroup) (lv : Volume) {free : ℕ → Option ℕ}
    → lv.exists ≡ false
    → release (pv_sizes lv) vg.free ≡ returned free
    → give_back vg lv ≡ returned (with_free vg free)
give_back-planned vg lv planned done = rw (planned, done) refl

-- Where `_add_log_vol` returns, and the volume was not yet among the snapshots of its origin,
-- `_remove_log_vol` of the volume then returns, and leaves the group as it was before.
pub remove_log_vol-add_log_vol :
    (ops : Rounding) (vg : VolumeGroup) (lv : Volume) {vg' : VolumeGroup}
    → add_log_vol ops vg lv ≡ returned vg'
    → is_new_snapshot vg lv ≡ true
    → remove_log_vol vg' lv ≡ returned vg
unfolding remove_log_vol
remove_log_vol-add_log_vol ops vg lv h new =
    let added = add_log_vol-Added ops vg lv h in
    elim (account-cases (enter_volume vg lv) lv added.accounted) [
      | inl (there, e) ↦ rw e (
          rw (is_volume-snoc lv vg.lvs, known_snapshot vg lv)
            (give_back-exists (leave_volume (enter_volume vg lv) lv) lv there
              ∙ ap returned (left vg lv vg.free added.new new)))
      | inr (free, planned, done, e) ↦ rw e (
          rw (is_volume-snoc lv vg.lvs, known_snapshot vg lv)
            (give_back-planned (leave_volume (with_free (enter_volume vg lv) free) lv) lv planned
                (release-allocate (pv_sizes lv) vg.free done)
              ∙ ap returned (left vg lv vg.free added.new new)))
    ]

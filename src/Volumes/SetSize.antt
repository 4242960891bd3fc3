-- ===== src/Volumes/SetSize.antt =====
-- Setting the size of a volume of a group, in blivet/devices/lvm.py: what is left of the free space.
use blivet.Prelude.{
  is_true, ℕ, ◌≡◌, refl, sym, ap, ◌∙◌, Bool, true, false, ◌&&◌, ◌||◌, not, Result, ok, >>=-eq-ok,
  ◌>>◌, raise_if, device_error, ok-injective, arith, int_laws, ℤ, pos, pos_part, neg_part, ◌+ℤ◌,
  ◌≤ℤ◌, ltb_ℤ, if◌then◌else◌, ◌⊎◌, List, ◌∷◌, ◌++◌, Bool-cases, inl, inr,
}
use blivet.Volumes.Space.{Rounding, Volume, VolumeGroup, free_space}
use blivet.Volumes.Group.{is_volume}
use blivet.Volumes.Resize.{
  set_size, change_volume, change_in, with_size, aligned, check_room, check_limits,
}
use blivet.Volumes.Room.{
  Aligns, IsLinear, extra, vg_space_used-IsLinear, change_volume-first, resized, resized-free,
}

-- A size was accepted, so there was room for it.
check_room-enough :
    (ops : Rounding) (vg : VolumeGroup) (lv : Volume) (size f : ℤ)
    → IsLinear lv
    → free_space ops vg ≡ ok f
    → check_room ops vg lv size ≡ ok tt
    → (size ≤ℤ pos lv.size) ⊎ (size ≤ℤ f +ℤ (ops.up (pos lv.size) vg.pe_size +ℤ extra lv))
check_room-enough ops vg lv size f linear h room = elim (Bool-cases (ltb_ℤ (pos lv.size) size)) [
  | inr smaller ↦ inl (ground arith)
  | inl larger ↦
      let need = vg_space_used-IsLinear ops vg.pe_size lv linear in
      let passed = rw (need, h, larger, linear.planned) at room in
      inr (fits (f +ℤ (ops.up (pos lv.size) vg.pe_size +ℤ extra lv)) size passed)
]
  where
    fits :
        (free newsize : ℤ)
        → ◌≡◌ {A = Result (Unit {0})} (raise_if (ltb_ℤ free newsize) device_error >> ok tt) (ok tt)
        → newsize ≤ℤ free
    fits free newsize passed = ground arith

if_false {ℓ} :
    {A : Type ℓ} (b : Bool) (x y : A) {r : A} → b ≡ false → (if b then x else y) ≡ r → y ≡ r
if_false true x y e h = cc
if_false false x y e h = h

aligned-multiple :
    (ops : Rounding) (vg : VolumeGroup) (lv : Volume) (newsize : ℕ)
    → Aligns ops vg.pe_size
    → (m : ℕ) × (aligned ops vg lv newsize ≡ pos m) × (ops.up (pos m) vg.pe_size ≡ pos m)
aligned-multiple ops vg lv newsize rounds = elim (Bool-cases (is_true lv.req_grow || vg.growable)) [
  | inl grows ↦ let (m, e, e', _) = rounds.up_multiple newsize in (m, rw grows e, e')
  | inr fixed ↦ rw fixed (rounds.down_multiple newsize)
]

left_over :
    (f f' x new old size : ℤ)
    → f' +ℤ new ≡ f +ℤ old
    → size ≤ℤ old
    → (new ≤ℤ size) ⊎ (new ≤ℤ f +ℤ (old +ℤ x))
    → pos 0 ≤ℤ f
    → pos 0 ≤ℤ x
    → pos 0 ≤ℤ f' +ℤ x
left_over f f' x new old size same grows (inl smaller) free some =
    omega (int_laws, ap pos_part same, ap neg_part same)
left_over f f' x new old size same grows (inr fits) free some =
    omega (int_laws, ap pos_part same, ap neg_part same)

pub set_size-change :
    (ops : Rounding) (vg : VolumeGroup) (lv : Volume) (newsize : ℕ) {vg' : VolumeGroup}
    → lv.is_thin_lv ≡ false
    → set_size ops vg lv newsize ≡ ok vg'
    → vg' ≡ change_in (with_size (aligned ops vg lv newsize)) vg lv
unfolding set_size
set_size-change ops vg lv newsize regular h =
    let (_, _, h1) =
      >>=-eq-ok (check_room ops vg lv (aligned ops vg lv newsize)) _
        (if_false lv.is_thin_lv _ _ regular h) in
    let (_, _, e) = >>=-eq-ok (check_limits lv (aligned ops vg lv newsize)) _ h1 in
    sym (ok-injective e)

-- Setting the size of a planned volume, neither thin nor of VDO nor of RAID, of a group whose sizes
-- are rounded to multiples: where it returns, the free space of the group is what it was, and what the
-- volume took, less the new size; if it was not negative, what it lacks then is no more than what the
-- cache and the metadata of the volume take.
pub set_size-free :
    (ops : Rounding) (vg : VolumeGroup) (before after : List Volume) (lv : Volume) (newsize : ℕ)
    {f : ℤ} {vg' : VolumeGroup}
    → Aligns ops vg.pe_size
    → IsLinear lv
    → vg.lvs ≡ before ++ lv ∷ after
    → is_volume lv before ≡ false
    → free_space ops vg ≡ ok f
    → set_size ops vg lv newsize ≡ ok vg'
    → (f' : ℤ) × (free_space ops vg' ≡ ok f')
      × (f' +ℤ aligned ops vg lv newsize ≡ f +ℤ ops.up (pos lv.size) vg.pe_size)
      × (pos 0 ≤ℤ f → pos 0 ≤ℤ f' +ℤ extra lv)
unfolding set_size
set_size-free ops vg before after lv newsize {f} {vg'} rounds linear at first h h' =
    let (size, is_size, multiple) = aligned-multiple ops vg lv newsize rounds in
    let (old, is_old, _, grows) = rounds.up_multiple lv.size in
    let (_, room, h1) =
      >>=-eq-ok (check_room ops vg lv (aligned ops vg lv newsize)) _
        (if_false lv.is_thin_lv _ _ linear.not_thin h') in
    let (_, _, e) = >>=-eq-ok (check_limits lv (aligned ops vg lv newsize)) _ h1 in
    let there : vg' ≡ resized ops vg before after lv (pos size) =
      sym (ok-injective e)
      ∙ ap (λ a. change_in (with_size a) vg lv) is_size
      ∙ ap (λ xs. record vg { lvs = xs })
          (ap (change_volume (with_size (pos size)) lv.id) at
            ∙ change_volume-first (with_size (pos size)) before after lv first) in
    let (f', is_free, same) = resized-free ops vg before after lv size linear at multiple h in
    let enough = check_room-enough ops vg lv (aligned ops vg lv newsize) f linear h room in
    (
      f',
      ap (free_space ops) there ∙ is_free,
      ap (λ a. f' +ℤ a) is_size ∙ same,
      λ free.
          left_over f f' (extra lv) (aligned ops vg lv newsize) (ops.up (pos lv.size) vg.pe_size)
            (pos lv.size) (ap (λ a. f' +ℤ a) is_size ∙ same) (rw is_old (omega arith)) enough free
            (omega int_laws),
    )

take_else {ℓ} : {A : Type ℓ} (b : Bool) (x y : A) → b ≡ false → (if b then x else y) ≡ y
take_else true x y e = cc
take_else false x y e = refl

check_room-all :
    (ops : Rounding) (vg : VolumeGroup) (lv : Volume) (size f : ℤ)
    → IsLinear lv
    → free_space ops vg ≡ ok f
    → size ≡ f +ℤ (ops.up (pos lv.size) vg.pe_size +ℤ extra lv)
    → check_room ops vg lv size ≡ ok tt
check_room-all ops vg lv size f linear h all =
    let need = vg_space_used-IsLinear ops vg.pe_size lv linear in
    let fits : ltb_ℤ (f +ℤ (ops.up (pos lv.size) vg.pe_size +ℤ extra lv)) size ≡ false =
      rw all (ground arith) in
    elim (Bool-cases (not lv.exists && ltb_ℤ (pos lv.size) size)) [
      | inr smaller ↦ rw smaller refl
      | inl larger ↦ rw (larger, need, h, fits) refl
    ]

nothing_left : (f f' x new old : ℤ) → f' +ℤ new ≡ f +ℤ old → new ≡ f +ℤ (old +ℤ x) → f' +ℤ x ≡ pos 0
nothing_left f f' x new old same all =
    omega (int_laws, ap pos_part same, ap neg_part same, ap pos_part all, ap neg_part all)

-- The check of the setter counts the cache and the metadata of a volume as room for its own size. For a
-- planned volume as above, a size that takes all of this room, if the limits of its format allow it, is
-- accepted, and the free space of the group is then negative by what the cache and the metadata take.
pub set_size-overdraws :
    (ops : Rounding) (vg : VolumeGroup) (before after : List Volume) (lv : Volume) (newsize : ℕ)
    {f : ℤ}
    → Aligns ops vg.pe_size
    → IsLinear lv
    → vg.lvs ≡ before ++ lv ∷ after
    → is_volume lv before ≡ false
    → free_space ops vg ≡ ok f
    → aligned ops vg lv newsize ≡ f +ℤ (ops.up (pos lv.size) vg.pe_size +ℤ extra lv)
    → check_limits lv (aligned ops vg lv newsize) ≡ ok tt
    → (vg' : VolumeGroup) × (f' : ℤ) × (set_size ops vg lv newsize ≡ ok vg')
      × (free_space ops vg' ≡ ok f')
      × (f' +ℤ extra lv ≡ pos 0)
unfolding set_size
set_size-overdraws ops vg before after lv newsize {f} rounds linear at first h all limits =
    let room = check_room-all ops vg lv (aligned ops vg lv newsize) f linear h all in
    let vg' = change_in (with_size (aligned ops vg lv newsize)) vg lv in
    let returns : set_size ops vg lv newsize ≡ ok vg' =
      take_else lv.is_thin_lv _ _ linear.not_thin ∙ rw (room, limits) refl in
    let (f', is_free, same, _) =
      set_size-free ops vg before after lv newsize rounds linear at first h returns in
    (
      vg',
      f',
      returns,
      is_free,
      nothing_left f f' (extra lv) (aligned ops vg lv newsize) (ops.up (pos lv.size) vg.pe_size)
          same all,
    )

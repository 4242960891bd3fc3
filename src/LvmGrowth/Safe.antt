-- ===== src/LvmGrowth/Safe.antt =====
-- The growing of the regular volumes of a group keeps within its space: `grow_lvm` and
-- `_apply_chunk_growth` of blivet/partitioning.py, with the setter of sizes of blivet/devices/lvm.py.
use blivet.Prelude.{
  ℕ, ◌≡◌, refl, sym, ap, ◌∙◌, subst, Bool, true, false, none, some, Option, ok, >>=-eq-ok,
  ok-injective, arith, int_laws, ℤ, pos, pos_part, neg_part, ◌+ℤ◌, ◌≤ℤ◌, ◌==◌, if◌then◌else◌, List,
  [], ◌∷◌, ◌++◌, Bool-cases, inl, inr, ==_iff, All,
}
use mathlib.Core.Option.{some-injective}
use blivet.Volumes.Space.{Rounding, Volume, VolumeGroup, free_space}
use blivet.Volumes.Group.{is_volume}
use blivet.Volumes.Resize.{set_size, change_volume, with_size, aligned}
use blivet.Volumes.Room.{Aligns, IsLinear, extra}
use blivet.Volumes.SetSize.{set_size-free, set_size-change}
use blivet.Growth.Chunk.{Request}
use blivet.Growth.Grow.{Quotients, grow_requests}
use blivet.LvmGrowth.Compare.{sort_lvs}
use blivet.LvmGrowth.Request.{lv_requests, vg_chunk}
use blivet.LvmGrowth.Grow.{
  find_volume, with_volume, fat_lvs, apply_growth, grown_size, grow_regular,
}

-- A planned volume without cache and metadata, neither thin nor of VDO nor of RAID.
abbrev pub Simple : Volume → Type 0
Simple lv = IsLinear lv × (extra lv ≡ pos 0)

-- All volumes of the group are such, and its free space is not negative.
abbrev pub Fits : Rounding → VolumeGroup → Type 0
Fits ops vg = All Simple vg.lvs × (f : ℤ) × (free_space ops vg ≡ ok f) × (pos 0 ≤ℤ f)

-- Where a volume was found.
find_volume-split :
    (id : ℕ) (lvs : List Volume) {lv : Volume}
    → find_volume id lvs ≡ some lv
    → (before : List Volume) × (after : List Volume) × (lvs ≡ before ++ lv ∷ after)
      × (is_volume lv before ≡ false)
      × (lv.id ≡ id)
find_volume-split id [] h = cc
find_volume-split id (x ∷ xs) {lv} h = elim (Bool-cases (x.id == id)) [
  | inl here ↦
      let e : x ≡ lv = some-injective x lv (rw here at h) in
      (
        [],
        xs,
        ap (λ y. y ∷ xs) e,
        refl,
        ap (λ (y : Volume). y.id) (sym e) ∙ (==_iff x.id id).0 here,
      )
  | inr past ↦
      let (before, after, e, absent, same) = find_volume-split id xs (rw past at h) in
      (x ∷ before, after, ap (λ ys. x ∷ ys) e, ground (arith, absent, same, past), same)
]

Simple-change :
    (size : ℤ) (id : ℕ) (lvs : List Volume)
    → All Simple lvs
    → All Simple (change_volume (with_size size) id lvs)
Simple-change size id [] h = tt
Simple-change size id (x ∷ xs) ((linear, e), h) = elim (Bool-cases (x.id == id)) [
  | inl here ↦ rw here (
    (
      record {
        planned = linear.planned;
        not_thin = linear.not_thin;
        not_vdo = linear.not_vdo;
        not_raid = linear.not_raid;
      },
      e,
    ),
    h,
  )
  | inr past ↦ rw past ((linear, e), Simple-change size id xs h)
]

All-at {ℓ κ} :
    {A : Type ℓ} (P : A → Type κ) (xs : List A) (x : A) (ys : List A) → All P (xs ++ x ∷ ys) → P x
All-at P [] x ys h = h.0
All-at P (y ∷ xs) x ys h = All-at P xs x ys h.1

module _ (ops : Rounding) where
  -- Setting the size of a volume that was found keeps the group within its space.
  set_size-Fits :
      (vg : VolumeGroup) (id newsize : ℕ) {lv : Volume} {vg' : VolumeGroup}
      → Aligns ops vg.pe_size
      → Fits ops vg
      → find_volume id vg.lvs ≡ some lv
      → set_size ops vg lv newsize ≡ ok vg'
      → Fits ops vg' × Aligns ops vg'.pe_size
  set_size-Fits vg id newsize {lv} {vg'} rounds (simple, f, free, positive) found h =
      let (before, after, e, absent, same) = find_volume-split id vg.lvs found in
      let (linear, nothing) : Simple lv =
        All-at Simple before lv after (subst (λ xs. All Simple xs) e simple) in
      let (f', free', _, enough) =
        set_size-free ops vg before after lv newsize rounds linear e absent free h in
      let there = set_size-change ops vg lv newsize linear.not_thin h in
      (
        (
          subst (λ (g : VolumeGroup). All Simple g.lvs) (sym there)
              (Simple-change (aligned ops vg lv newsize) lv.id vg.lvs simple),
          f',
          free',
          no_extra f' (extra lv) nothing (enough positive),
        ),
        subst (λ (g : VolumeGroup). Aligns ops g.pe_size) (sym there) rounds,
      )
    where
      no_extra : (a x : ℤ) → x ≡ pos 0 → pos 0 ≤ℤ a +ℤ x → pos 0 ≤ℤ a
      no_extra a x e h' = omega (int_laws, ap pos_part e, ap neg_part e)

  grow_one-Fits :
      (vg : VolumeGroup) (id : ℕ) (newsize : VolumeGroup → ℕ) (grows : Bool) (lv : Option Volume)
      {vg' : VolumeGroup}
      → Aligns ops vg.pe_size
      → Fits ops vg
      → find_volume id vg.lvs ≡ lv
      → (if grows then with_volume (λ g v. set_size ops g v (newsize g)) vg lv else ok vg) ≡ ok vg'
      → Fits ops vg' × Aligns ops vg'.pe_size
  grow_one-Fits vg id newsize false lv rounds fits found h =
      subst (λ (g : VolumeGroup). Fits ops g × Aligns ops g.pe_size) (ok-injective h) (fits, rounds)
  grow_one-Fits vg id newsize true none rounds fits found h =
      subst (λ (g : VolumeGroup). Fits ops g × Aligns ops g.pe_size) (ok-injective h) (fits, rounds)
  grow_one-Fits vg id newsize true (some lv) rounds fits found h =
      set_size-Fits vg id (newsize vg) rounds fits found h

  apply_growth-Fits :
      (requests : List Request) (vg : VolumeGroup) {vg' : VolumeGroup}
      → Aligns ops vg.pe_size
      → Fits ops vg
      → apply_growth ops requests vg ≡ ok vg'
      → Fits ops vg'
  unfolding apply_growth
  apply_growth-Fits [] vg rounds fits h = subst (Fits ops) (ok-injective h) fits
  apply_growth-Fits (req ∷ reqs) vg {vg'} rounds fits h =
      let (g, one, rest) =
        >>=-eq-ok
          (if req.growable
            then with_volume (λ g lv. set_size ops g lv (grown_size ops g.pe_size req)) vg
                (find_volume req.id vg.lvs)
            else ok vg)
          _ h in
      let (fits', rounds') =
        grow_one-Fits vg req.id (λ (g : VolumeGroup). grown_size ops g.pe_size req) req.growable
          (find_volume req.id vg.lvs) rounds fits refl one in
      apply_growth-Fits reqs g rounds' fits' rest

-- Growing the regular volumes of a group never takes more than the group has. Where all volumes are
-- planned, without cache and metadata, neither thin nor of VDO nor of RAID, where sizes are rounded
-- to multiples, and where the free space is not negative: whatever the quotients computed and however
-- many passes are made, if the growing returns, all volumes are such still and the free space is not
-- negative.
pub grow_regular-Fits :
    (ops : Rounding) (quotients : Quotients) (passes : ℕ) (vg : VolumeGroup) {vg' : VolumeGroup}
    → Aligns ops vg.pe_size
    → Fits ops vg
    → grow_regular ops quotients passes vg ≡ ok vg'
    → Fits ops vg'
unfolding grow_regular
grow_regular-Fits ops quotients passes vg rounds fits h =
    let (requests, _, h1) = >>=-eq-ok (lv_requests ops vg (sort_lvs (fat_lvs vg))) _ h in
    let (chunk, _, h2) = >>=-eq-ok (vg_chunk ops vg requests) _ h1 in
    let (grown, _, h3) = >>=-eq-ok (grow_requests quotients false passes chunk) _ h2 in
    apply_growth-Fits ops grown.requests vg rounds fits h3

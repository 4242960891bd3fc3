-- ===== src/Volumes/Room.antt =====
-- The free space of a group of blivet/devices/lvm.py after the size of a volume has been set.
use blivet.Prelude.{
  ℕ, ◌+◌, ◌≤◌, ◌≡◌, refl, sym, ap, ◌∙◌, false, ◌||◌, none, ok, >>=-eq-ok, ok-injective, arith,
  int_laws, ℤ, pos, pos_part, neg_part, ◌+ℤ◌, ◌-ℤ◌, eqb_ℤ, ◌==◌, List, [], ◌∷◌, ◌++◌, any, max,
  Bool-cases, inl, inr, ==_refl,
}
use blivet.Volumes.Space.{
  Rounding, Volume, VolumeGroup, cache_of, free_space, vg_space_used, data_vg_space_used,
  metadata_vg_space_used, raided_size, used_space, vg_size, reserved_space, pmspare_size,
}
use blivet.Volumes.Group.{is_volume}
use blivet.Volumes.Resize.{change_volume, with_size}

-- Sizes are rounded to multiples, which are not negative, and rounding up keeps multiples.
pub record Aligns (ops : Rounding) (pe_size : ℕ) : Type 0 where
  pub up_multiple :
      (n : ℕ)
      → (m : ℕ) × (ops.up (pos n) pe_size ≡ pos m) × (ops.up (pos m) pe_size ≡ pos m) × (n ≤ m)
  pub down_multiple :
      (n : ℕ) → (m : ℕ) × (ops.down (pos n) pe_size ≡ pos m) × (ops.up (pos m) pe_size ≡ pos m)

-- A planned volume that is neither thin nor of VDO nor of RAID.
pub record IsLinear (lv : Volume) : Type 0 where
  pub planned : lv.exists ≡ false
  pub not_thin : lv.is_thin_lv ≡ false
  pub not_vdo : lv.is_vdo_lv ≡ false
  pub not_raid : lv.raid ≡ none

-- What such a volume takes besides its own size: its cache and its metadata.
abbrev pub extra : Volume → ℤ
extra lv =
    pos (cache_of lv).size +ℤ (pos (lv.metadata_size + lv.log_size) +ℤ pos (cache_of lv).md_size)

swap_first : (a a' b rest u : ℤ) → a' ≡ a → a' +ℤ rest ≡ u → (b +ℤ rest) +ℤ a ≡ u +ℤ b
swap_first a a' b rest u same sum = rw (← sum, same) (grind int_laws)

swap_later : (a b c w rest u : ℤ) → w +ℤ a ≡ rest +ℤ b → c +ℤ rest ≡ u → (c +ℤ w) +ℤ a ≡ u +ℤ b
swap_later a b c w rest u swapped sum =
    rw (← sum) (omega (int_laws, ap pos_part swapped, ap neg_part swapped))

less_used :
    (s r u w o b x : ℤ) {f : ℤ}
    → w +ℤ (o +ℤ x) ≡ u +ℤ (b +ℤ x)
    → s -ℤ (u +ℤ r) ≡ f
    → (n : ℤ) → b ≡ n
    → s -ℤ (w +ℤ r) +ℤ n ≡ f +ℤ o
less_used s r u w o b x swapped is_free n same =
    rw (← is_free, ← same) (omega (int_laws, ap pos_part swapped, ap neg_part swapped))

module _ (ops : Rounding) (pe_size : ℕ) where
  pub vg_space_used-IsLinear :
      (lv : Volume)
      → IsLinear lv
      → vg_space_used ops pe_size lv ≡ ok (ops.up (pos lv.size) pe_size +ℤ extra lv)
  unfolding vg_space_used data_vg_space_used metadata_vg_space_used raided_size
  vg_space_used-IsLinear lv l =
      rw (l.planned, l.not_thin, l.not_vdo, l.not_raid)
        (elim (Bool-cases (eqb_ℤ (pos (lv.metadata_size + lv.log_size)) (pos 0))) [
          | inl e ↦ rw e (ap ok (grind int_laws))
          | inr e ↦ rw e (ap ok (grind int_laws))
        ])

  -- The space that a list of volumes takes, with one of them replaced.
  used_space-replace :
      (before after : List Volume) (x y : Volume) (a b : ℤ) {u : ℤ}
      → vg_space_used ops pe_size x ≡ ok a
      → vg_space_used ops pe_size y ≡ ok b
      → used_space ops pe_size (before ++ x ∷ after) ≡ ok u
      → (w : ℤ) × (used_space ops pe_size (before ++ y ∷ after) ≡ ok w) × (w +ℤ a ≡ u +ℤ b)
  unfolding used_space
  used_space-replace [] after x y a b {u} ha hb h =
      let (a', ea, h') = >>=-eq-ok (vg_space_used ops pe_size x) _ h in
      let (rest, er, e) = >>=-eq-ok (used_space ops pe_size after) _ h' in
      let same : a' ≡ a = ok-injective (sym ea ∙ ha) in
      let sum : a' +ℤ rest ≡ u = ok-injective e in
      (b +ℤ rest, rw (hb, er) refl, swap_first a a' b rest u same sum)
  used_space-replace (z ∷ before) after x y a b {u} ha hb h =
      let (c, ec, h') = >>=-eq-ok (vg_space_used ops pe_size z) _ h in
      let (rest, er, e) = >>=-eq-ok (used_space ops pe_size (before ++ x ∷ after)) _ h' in
      let (w, ew, swapped) = used_space-replace before after x y a b ha hb er in
      let sum : c +ℤ rest ≡ u = ok-injective e in
      (c +ℤ w, rw (ec, ew) refl, swap_later a b c w rest u swapped sum)

pub change_volume-first :
    (f : Volume → Volume) (before after : List Volume) (lv : Volume)
    → is_volume lv before ≡ false
    → change_volume f lv.id (before ++ lv ∷ after) ≡ before ++ f lv ∷ after
change_volume-first f [] after lv h = rw (==_refl lv.id) refl
change_volume-first f (x ∷ before) after lv h =
    let other : (x.id == lv.id) ≡ false = ground arith in
    rw other (ap (λ xs. x ∷ xs) (change_volume-first f before after lv (ground arith)))

has_pool-resize :
    (before after : List Volume) (lv : Volume) (size : ℤ)
    → any (λ (v : Volume). v.is_thin_pool) (before ++ with_size size lv ∷ after)
      ≡ any (λ (v : Volume). v.is_thin_pool) (before ++ lv ∷ after)
has_pool-resize [] after lv size = refl
has_pool-resize (x ∷ before) after lv size =
    ap (λ b. x.is_thin_pool || b) (has_pool-resize before after lv size)

module _ (ops : Rounding) where
  pmspare_size-resize :
      (before after : List Volume) (lv : Volume) (size : ℤ)
      → pmspare_size ops (before ++ with_size size lv ∷ after)
        ≡ pmspare_size ops (before ++ lv ∷ after)
  unfolding pmspare_size
  pmspare_size-resize [] after lv size = refl
  pmspare_size-resize (x ∷ before) after lv size =
      ap (max (max x.metadata_size (cache_of x).md_size)) (pmspare_size-resize before after lv size)

  same_reserve :
      (vg : VolumeGroup) (xs ys : List Volume)
      → pmspare_size ops xs ≡ pmspare_size ops ys
      → any (λ (v : Volume). v.is_thin_pool) xs ≡ any (λ (v : Volume). v.is_thin_pool) ys
      → reserved_space ops (record vg { lvs = xs }) ≡ reserved_space ops (record vg { lvs = ys })
  unfolding reserved_space vg_size
  same_reserve vg xs ys spare pools = ground (arith, spare, pools)

module _ (ops : Rounding) (vg : VolumeGroup) (before after : List Volume) (lv : Volume) where
  -- The group with another size of the volume.
  abbrev pub resized : ℤ → VolumeGroup
  resized size = record vg { lvs = before ++ with_size size lv ∷ after }

  pub resized-free :
      (size : ℕ) {f : ℤ}
      → IsLinear lv
      → vg.lvs ≡ before ++ lv ∷ after
      → ops.up (pos size) vg.pe_size ≡ pos size
      → free_space ops vg ≡ ok f
      → (f' : ℤ) × (free_space ops (resized (pos size)) ≡ ok f')
        × (f' +ℤ pos size ≡ f +ℤ ops.up (pos lv.size) vg.pe_size)
  unfolding free_space vg_size
  resized-free size {f} linear at multiple h =
      let (u, used, e) = >>=-eq-ok (used_space ops vg.pe_size vg.lvs) _ h in
      let linear' : IsLinear (with_size (pos size) lv) = record {
        planned = linear.planned;
        not_thin = linear.not_thin;
        not_vdo = linear.not_vdo;
        not_raid = linear.not_raid;
      } in
      let old = vg_space_used-IsLinear ops vg.pe_size lv linear in
      let new = vg_space_used-IsLinear ops vg.pe_size (with_size (pos size) lv) linear' in
      let (w, used', swapped) =
        used_space-replace ops vg.pe_size before after lv (with_size (pos size) lv) _ _ old new
          (ap (λ xs. used_space ops vg.pe_size xs) (sym at) ∙ used) in
      let reserve =
        same_reserve ops vg (before ++ with_size (pos size) lv ∷ after) vg.lvs
          (pmspare_size-resize ops before after lv (pos size) ∙ ap (pmspare_size ops) (sym at))
          (has_pool-resize before after lv (pos size)
            ∙ ap (any (λ (v : Volume). v.is_thin_pool)) (sym at)) in
      (
        vg_size ops vg -ℤ (w +ℤ reserved_space ops vg),
        rw (used', reserve) refl,
        less_used (vg_size ops vg) (reserved_space ops vg) u w (ops.up (pos lv.size) vg.pe_size)
            (ops.up (pos size) vg.pe_size) (extra lv) swapped (ok-injective e) (pos size) multiple,
      )

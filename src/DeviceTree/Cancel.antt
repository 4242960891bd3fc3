-- ===== src/DeviceTree/Cancel.antt =====
-- `_register_action` and `_cancel_action` of blivet/devicetree.py: an action that is cancelled leaves the
-- tree as it was before it was registered.
use blivet.Prelude.{
  ℕ, ◌≡◌, refl, ap, ◌∙◌, subst, true, false, ◌&&◌, ◌||◌, not, ok, [], ◌==◌, arith, elem, all,
  elem-all, all-elem, elem-any, inl, inr, Bool-cases, ==_iff,
}
use blivet.Actions.Model.{create_device, destroy_device}
use blivet.DeviceTree.Store.{DeviceTree, is_leaf}
use blivet.DeviceTree.Registry.{is_given, same_text, add_device, check_uuid}
use blivet.DeviceTree.Register.{add_back, remove_listed, register_action, cancel_action}
use blivet.DeviceTree.View.{View, view, view-≡, attach, detach, IsLinked, HasNoCopies}
use blivet.DeviceTree.Changed.{is_leaf-child, is_leaf-childless}
use blivet.DeviceTree.Refine.{Step, remove_device-refines, add_device-refines}

-- A device has no UUID, or one that no other device of the tree has.
abbrev pub HasOwnUuid : DeviceTree → ℕ → Type 0
HasOwnUuid t d =
    is_given (t.node d).uuid ≡ true
    → (j : ℕ) → elem j t.devices ≡ true
    → (j == d) ≡ false
    → same_text (t.node j).uuid (t.node d).uuid ≡ false

check_uuid-own :
    (t : DeviceTree) (d : ℕ) → HasOwnUuid t d → elem d t.devices ≡ false → check_uuid t d ≡ ok tt
unfolding check_uuid
check_uuid-own t d own absent = elim (Bool-cases (is_given (t.node d).uuid)) [
  | inl given ↦
      rw
        (
          elem-any (λ j. same_text (t.node j).uuid (t.node d).uuid) t.devices
              (λ j h. own given j h (other j h)),
          given,
        )
        refl
  | inr missing ↦ rw missing refl
]
  where
    other : (j : ℕ) → elem j t.devices ≡ true → (j == d) ≡ false
    other j h = elim (Bool-cases (j == d)) [
      | inl same ↦ let e = (==_iff j d).0 same in cc
      | inr differs ↦ differs
    ]

pub attach-detach : (d : ℕ) (v : View) → IsLinked v → v.present d ≡ true → attach d (detach d v) ≡ v
unfolding attach detach
attach-detach d v l h = view-≡ present (λ j p. refl) child
  where
    present : (j : ℕ) → ((v.present j && not (j == d)) || j == d) ≡ v.present j
    present j = elim (Bool-cases (j == d)) [
      | inl same ↦ let e = ap v.present ((==_iff j d).0 same) in ground (arith, same, e)
      | inr other ↦ ground (arith, other)
    ]

    child :
        (p j : ℕ)
        → ((v.child p j && not (v.parent d p && j == d)) || (v.parent d p && j == d)) ≡ v.child p j
    child p j = elim (Bool-cases (j == d)) [
      | inl same ↦
          let e = ap (v.child p) ((==_iff j d).0 same) in ground (arith, same, e, l.known d p h)
      | inr other ↦ ground (arith, other)
    ]

-- What a device finds as it enters the tree that it has left.
module _ (t t' : DeviceTree) (d : ℕ) (left : view t' ≡ detach d (view t)) (l : IsLinked (view t))
    (h : elem d t.devices ≡ true) where
  left-absent : elem d t'.devices ≡ false
  unfolding view detach
  left-absent = let e = ap (λ (v : View). v.present d) left in ground (arith, e)

  pub left-apart : (p : ℕ) → elem p (t'.node d).parents ≡ true → elem d (t'.node p).children ≡ false
  unfolding view detach
  left-apart p hp =
      let e = ap (λ (v : View). v.child p d) left in
      let e' = ap (λ (v : View). v.parent d p) left in ground (arith, e, e')

  left-parents : is_leaf t d ≡ true → all (λ p. elem p t'.devices) (t'.node d).parents ≡ true
  unfolding view detach
  left-parents leaf =
      elem-all (λ p. elem p t'.devices) (t'.node d).parents
        (λ p hp.
          let e = ap (λ (v : View). v.present p) left in
          let e' = ap (λ (v : View). v.parent d p) left in
          elim (Bool-cases (p == d)) [
            | inl same ↦
                let q = ap (λ x. elem d (t.node x).children) ((==_iff p d).0 same) in
                ground (arith, q, e', l.known d p h, is_leaf-child t d leaf d)
            | inr other ↦ ground (arith, e, e', other, l.parents_in d p h)
          ])

  left-HasOwnUuid :
      ((j : ℕ) → (t'.node j).uuid ≡ (t.node j).uuid) → HasOwnUuid t d → HasOwnUuid t' d
  unfolding view detach
  left-HasOwnUuid same own given j hj other =
      let e = ap (λ (v : View). v.present j) left in
      rw (same j, same d)
        (own (subst (λ x. is_given x ≡ true) (same d) given) j (ground (arith, e)) other)

detach-attach : (d : ℕ) (v : View) → detach d (attach d v) ≡ detach d v
unfolding attach detach
detach-attach d v = view-≡ (λ j. ground arith) (λ j p. refl) (λ p j. ground arith)

-- What a device finds as it leaves the tree that it has entered.
module _ (t t' : DeviceTree) (d : ℕ) (entered : view t' ≡ attach d (view t)) where
  entered-present : elem d t'.devices ≡ true
  unfolding view attach
  entered-present = let e = ap (λ (v : View). v.present d) entered in ground (arith, e)

  entered-childless :
      elem d t.devices ≡ false
      → is_leaf t d ≡ true
      → all (λ p. elem p t.devices) (t.node d).parents ≡ true
      → (j : ℕ) → elem j (t'.node d).children ≡ false
  unfolding view attach
  entered-childless h leaf ps j =
      let e = ap (λ (v : View). v.child d j) entered in
      let not_own = all-elem (λ p. elem p t.devices) (t.node d).parents ps d in
      ground (arith, e, not_own, h, is_leaf-child t d leaf j)

-- Where links are in order, and a leaf of the tree is not made of other LVs and has a UUID of its own, or
-- none, the registering of an action that destroys it returns, and then the cancelling of this action
-- returns; afterwards the tree has the same devices with the same links, which are in order.
pub cancel_action-register_action :
    (t : DeviceTree) (d : ℕ)
    → IsLinked (view t)
    → HasNoCopies t
    → elem d t.devices ≡ true
    → is_leaf t d ≡ true
    → (t.node d).from_lvs ≡ []
    → HasOwnUuid t d
    → (t' : DeviceTree) × (register_action t destroy_device d ≡ ok t')
      × Step t' (cancel_action t' destroy_device d) (view t)
unfolding register_action cancel_action add_back remove_listed
cancel_action-register_action t d l n h leaf plain own =
    let s = remove_device-refines t d false l n h leaf in
    let absent = left-absent t s.after d s.same_view l h in
    let back =
      add_device-refines s.after d false s.linked s.no_copies absent
        (check_uuid-own s.after d (left-HasOwnUuid t s.after d s.same_view l h s.same_uuids own)
          absent)
        (left-parents t s.after d s.same_view l h leaf) (left-apart t s.after d s.same_view l h) in
    let restored : attach d (view s.after) ≡ view t =
      ap (attach d) s.same_view ∙ attach-detach d (view t) l (unfold view in h) in
    let plain' : (s.after.node d).from_lvs ≡ [] = s.same_lvs d ∙ plain in
    (
      s.after,
      rw (h, s.returns, plain) refl,
      rw plain' (subst (Step s.after (add_device s.after d false)) restored back),
    )

-- The same of an action that creates a device, which is already a child of its parents: afterwards it
-- is neither in the tree nor a child of them.
pub cancel_action-register_action_create :
    (t : DeviceTree) (d : ℕ)
    → IsLinked (view t)
    → HasNoCopies t
    → elem d t.devices ≡ false
    → is_leaf t d ≡ true
    → (t.node d).from_lvs ≡ []
    → HasOwnUuid t d
    → all (λ p. elem p t.devices) (t.node d).parents ≡ true
    → ((p : ℕ) → elem p (t.node d).parents ≡ true → elem d (t.node p).children ≡ true)
    → (t' : DeviceTree) × (register_action t create_device d ≡ ok t')
      × Step t' (cancel_action t' create_device d) (detach d (view t))
unfolding register_action cancel_action add_back remove_listed
cancel_action-register_action_create t d l n h leaf plain own ps c =
    let s = add_device-refines t d true l n h (check_uuid-own t d own h) ps c in
    let leaf' : is_leaf s.after d ≡ true =
      is_leaf-childless s.after d (entered-childless t s.after d s.same_view h leaf ps) in
    let there = entered-present t s.after d s.same_view in
    let s' = remove_device-refines s.after d false s.linked s.no_copies there leaf' in
    let plain' : (s.after.node d).from_lvs ≡ [] = s.same_lvs d ∙ plain in
    (
      s.after,
      rw (h, plain) s.returns,
      record {
        after = s'.after;
        returns = rw (s'.returns, plain') refl;
        same_view = s'.same_view ∙ (ap (detach d) s.same_view ∙ detach-attach d (view t));
        same_uuids = s'.same_uuids;
        same_lvs = s'.same_lvs;
        same_exists = s'.same_exists;
        same_hidden = s'.same_hidden;
        linked = s'.linked;
        no_copies = s'.no_copies;
      },
    )

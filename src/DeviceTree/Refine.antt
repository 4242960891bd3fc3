-- ===== src/DeviceTree/Refine.antt =====
-- `_add_device` and `_remove_device` of blivet/devicetree.py, against the abstract view of the tree.
use blivet.Prelude.{
  ℕ, ◌≡◌, refl, sym, ap, ◌∙◌, subst, Bool, true, false, ◌&&◌, ◌||◌, not, Result, ok, ◌==◌, arith,
  if◌then◌else◌, elem, all, all-elem, ==_iff, without, elem-without, IsDistinct-without, elem-snoc,
  IsDistinct-snoc, inl, inr, Bool-cases,
}
use blivet.DeviceTree.Store.{DeviceTree, is_leaf}
use blivet.DeviceTree.Registry.{add_device, remove_device, check_uuid}
use blivet.DeviceTree.Changed.{
  changed, parents-changed, children-changed, uuid-changed, from_lvs-changed, exists-changed,
  HasNoCopies-changed, is_leaf-child,
}
use blivet.DeviceTree.Links.{change_children, remove_hook-ok, add_hook-ok, snoc}
use blivet.DeviceTree.View.{
  View, view, attach, detach, IsLinked, HasNoCopies, attach-IsLinked, detach-IsLinked, view-≡,
}

-- A call returns a tree with a given view and the same UUIDs, in which the links are in order.
pub record Step (before : DeviceTree) (result : Result DeviceTree) (v : View) : Type 0 where
  pub after : DeviceTree
  pub returns : result ≡ ok after
  pub same_view : view after ≡ v
  pub same_uuids : (j : ℕ) → (after.node j).uuid ≡ (before.node j).uuid
  pub same_lvs : (j : ℕ) → (after.node j).from_lvs ≡ (before.node j).from_lvs
  pub same_exists : (j : ℕ) → (after.node j).exists ≡ (before.node j).exists
  pub same_hidden : after.hidden ≡ before.hidden
  pub linked : IsLinked (view after)
  pub no_copies : HasNoCopies after

module _ (t : DeviceTree) (d : ℕ) where
  removed : DeviceTree
  removed = changed (without d) t (t.node d).parents (without d t.devices)

  view-removed : HasNoCopies t → view removed ≡ detach d (view t)
  unfolding removed view detach
  view-removed n =
      view-≡ (λ j. elem-without j d t.devices n.devices_distinct)
        (λ j p.
          ap (elem p) (parents-changed (without d) t (t.node d).parents (without d t.devices) j))
        (λ p j.
          ap (elem j) (children-changed (without d) t (t.node d).parents (without d t.devices) p)
          ∙ child p j)
    where
      child :
          (p j : ℕ)
          → elem j (
              if elem p (t.node d).parents
              then without d (t.node p).children
              else (t.node p).children)
            ≡ (elem j (t.node p).children && not (elem p (t.node d).parents && j == d))
      child p j = ground (arith, elem-without j d (t.node p).children (n.children_distinct p))

  no_copies-removed : HasNoCopies t → HasNoCopies removed
  unfolding removed
  no_copies-removed n =
      HasNoCopies-changed _ t _ _ n (IsDistinct-without d t.devices n.devices_distinct)
        (λ j h. IsDistinct-without d (t.node j).children (n.children_distinct j))

  unfoldable pub added : DeviceTree
  added = changed (snoc d) t (t.node d).parents (snoc d t.devices)

  pub view-added : view added ≡ attach d (view t)
  unfolding added view attach
  view-added =
      view-≡ (λ j. elem-snoc j d t.devices)
        (λ j p. ap (elem p) (parents-changed (snoc d) t (t.node d).parents (snoc d t.devices) j))
        (λ p j.
          ap (elem j) (children-changed (snoc d) t (t.node d).parents (snoc d t.devices) p)
          ∙ child p j)
    where
      child :
          (p j : ℕ)
          → elem j (
              if elem p (t.node d).parents then snoc d (t.node p).children else (t.node p).children)
            ≡ (elem j (t.node p).children || (elem p (t.node d).parents && j == d))
      child p j = ground (arith, elem-snoc j d (t.node p).children)

  no_copies-added :
      HasNoCopies t
      → elem d t.devices ≡ false
      → ((p : ℕ) → elem p (t.node d).parents ≡ true → elem d (t.node p).children ≡ false)
      → HasNoCopies added
  unfolding added
  no_copies-added n absent apart =
      HasNoCopies-changed _ t _ _ n (IsDistinct-snoc t.devices d n.devices_distinct absent)
        (λ j h. IsDistinct-snoc (t.node j).children d (n.children_distinct j) (apart j h))

  entered : DeviceTree
  entered = record t { devices = snoc d t.devices }

  view-entered :
      ((p : ℕ) → elem p (t.node d).parents ≡ true → elem d (t.node p).children ≡ true)
      → view entered ≡ attach d (view t)
  unfolding entered view attach
  view-entered c = view-≡ (λ j. elem-snoc j d t.devices) (λ j p. refl) child
    where
      child :
          (p j : ℕ)
          → elem j (t.node p).children
            ≡ (elem j (t.node p).children || (elem p (t.node d).parents && j == d))
      child p j = elim (Bool-cases (j == d)) [
        | inl same ↦
            let e : elem j (t.node p).children ≡ elem d (t.node p).children =
              ap (λ x. elem x (t.node p).children) ((==_iff j d).0 same) in
            ground (arith, c p, e, same)
        | inr other ↦ ground (arith, other)
      ]

  no_copies-entered : HasNoCopies t → elem d t.devices ≡ false → HasNoCopies entered
  unfolding entered
  no_copies-entered n absent = record {
    devices_distinct = IsDistinct-snoc t.devices d n.devices_distinct absent;
    parents_distinct = n.parents_distinct;
    children_distinct = n.children_distinct;
  }

-- Where links are in order, `_remove_device` of a leaf of the tree returns, forced or not; its effect on
-- the view is that the device has left; and links are in order.
pub remove_device-refines :
    (t : DeviceTree) (d : ℕ) (force : Bool)
    → IsLinked (view t)
    → HasNoCopies t
    → elem d t.devices ≡ true
    → is_leaf t d ≡ true
    → Step t (remove_device t d force) (detach d (view t))
unfolding remove_device removed change_children
remove_device-refines t d force l n h leaf = record {
  after = removed t d;
  returns =
      rw
        (
          h,
          leaf,
          remove_hook-ok (t.node d).parents d t (n.parents_distinct d)
              (λ p hp. unfold view in l.known d p h hp),
        )
        refl;
  same_view = view-removed t d n;
  same_uuids = λ j.
      unfold removed in (uuid-changed (without d) t (t.node d).parents (without d t.devices) j);
  same_lvs = λ j.
      unfold removed in (from_lvs-changed (without d) t (t.node d).parents (without d t.devices) j);
  same_exists = λ j.
      unfold removed in (exists-changed (without d) t (t.node d).parents (without d t.devices) j);
  same_hidden = unfold removed change_children in refl;
  linked =
      subst IsLinked (sym (view-removed t d n))
        (detach-IsLinked d (view t) l (unfold view in is_leaf-child t d leaf));
  no_copies = no_copies-removed t d n;
}

-- Where links are in order, `_add_device` of a device that is not in the tree, whose parents are, and
-- whose UUID passes the test, returns; its effect on the view is that the device has entered; and links
-- are in order. A new device is already a child of its parents, and one that is added back of none.
pub add_device-refines :
    (t : DeviceTree) (d : ℕ) (new : Bool)
    → IsLinked (view t)
    → HasNoCopies t
    → elem d t.devices ≡ false
    → check_uuid t d ≡ ok tt
    → all (λ p. elem p t.devices) (t.node d).parents ≡ true
    → ((p : ℕ) → elem p (t.node d).parents ≡ true → elem d (t.node p).children ≡ new)
    → Step t (add_device t d new) (attach d (view t))
unfolding add_device
add_device-refines t d true l n h u ps c = record {
  after = entered t d;
  returns = unfold entered in rw (u, ps) refl;
  same_view = view-entered t d c;
  same_uuids = λ j. unfold entered in refl;
  same_lvs = λ j. unfold entered in refl;
  same_exists = λ j. unfold entered in refl;
  same_hidden = unfold entered in refl;
  linked =
      subst IsLinked (sym (view-entered t d c))
        (attach-IsLinked d (view t) l (unfold view in all-elem _ (t.node d).parents ps));
  no_copies = no_copies-entered t d n h;
}
add_device-refines t d false l n h u ps c = record {
  after = added t d;
  returns =
      unfold added change_children in
      rw (u, ps, add_hook-ok (t.node d).parents d t (n.parents_distinct d) c) refl;
  same_view = view-added t d;
  same_uuids =
      λ j. unfold added in (uuid-changed (snoc d) t (t.node d).parents (snoc d t.devices) j);
  same_lvs =
      λ j. unfold added in (from_lvs-changed (snoc d) t (t.node d).parents (snoc d t.devices) j);
  same_exists =
      λ j. unfold added in (exists-changed (snoc d) t (t.node d).parents (snoc d t.devices) j);
  same_hidden = unfold added change_children in refl;
  linked =
      subst IsLinked (sym (view-added t d))
        (attach-IsLinked d (view t) l (unfold view in all-elem _ (t.node d).parents ps));
  no_copies = no_copies-added t d n h c;
}

-- ===== src/DeviceTree/Unhide.antt =====
-- `unhide` of blivet/devicetree.py after `hide`.
use blivet.Prelude.{
  ℕ, suc, ◌≡◌, refl, ap, ◌∙◌, true, false, Bool, Result, ok, List, [], ◌∷◌, ◌++◌, elem, inl, inr,
  Bool-cases, ==_refl,
}
use blivet.Actions.Model.{Action}
use blivet.DeviceTree.Store.{DeviceTree, is_leaf}
use blivet.DeviceTree.Session.{Session}
use blivet.DeviceTree.View.{view, IsLinked, HasNoCopies, attach, detach}
use blivet.DeviceTree.Links.{change_children, add_hook-ok, snoc}
use blivet.DeviceTree.Refine.{added, view-added, remove_device-refines}
use blivet.DeviceTree.Cancel.{attach-detach, left-apart}
use blivet.DeviceTree.Hide.{sort_children, forget_pv, allow_pv, hide, unhide_each, unhide}
use blivet.DeviceTree.Hiding.Leaf.{cancels_nothing, hidden-forget_pv}

view-allow_pv : (t : DeviceTree) (d : ℕ) → view (allow_pv t d) ≡ view t
unfolding view
view-allow_pv t d = elim (Bool-cases (t.node d).format_is_pv) [
  | inl pv ↦ rw pv refl
  | inr other ↦ rw other refl
]

-- The only hidden device, which has left a tree, is shown again.
module _ (t t1 : DeviceTree) (d depth : ℕ) (linked : IsLinked (view t)) where
  back : DeviceTree
  back =
      change_children (snoc d) (t1.node d).parents
        (record t1 { hidden = []; devices = t1.devices ++ d ∷ [] })

  shown : DeviceTree
  unfolding back
  shown = allow_pv back d

  unhide-shown :
      HasNoCopies t1
      → view t1 ≡ detach d (view t)
      → elem d t.devices ≡ true
      → t1.hidden ≡ d ∷ []
      → unhide depth t1 d ≡ ok shown
  unfolding unhide unhide_each shown
  unhide-shown n left there only =
      let apart = left-apart t t1 d left linked there in
      let links =
        add_hook-ok (t1.node d).parents d
          (record t1 { hidden = []; devices = t1.devices ++ d ∷ [] }) (n.parents_distinct d)
          apart in
      rw (only, ==_refl d, links) refl

  view-shown : view t1 ≡ detach d (view t) → elem d t.devices ≡ true → view shown ≡ view t
  unfolding shown back view added change_children
  view-shown left there =
      view-allow_pv (back) d
      ∙ view-added t1 d
      ∙ ap (attach d) left
      ∙ attach-detach d (view t) linked there

childless : (t : DeviceTree) (d : ℕ) → is_leaf t d ≡ true → (t.node d).children ≡ []
childless t d h = go (t.node d).children h
  where
    go : (xs : List ℕ) → elim xs as (λ _. Bool) [ [] ↦ true | _ ∷ _ ↦ false ] ≡ true → xs ≡ []
    go [] h' = refl
    go (x ∷ xs) h' = cc

view-forget_pv : (t : DeviceTree) (d : ℕ) → view (forget_pv t d) ≡ view t
unfolding view
view-forget_pv t d = elim (Bool-cases (t.node d).format_is_pv) [
  | inl pv ↦ rw pv refl
  | inr other ↦ rw other refl
]

HasNoCopies-forget_pv : (t : DeviceTree) (d : ℕ) → HasNoCopies t → HasNoCopies (forget_pv t d)
HasNoCopies-forget_pv t d n = elim (Bool-cases (t.node d).format_is_pv) [
  | inl pv ↦ rw pv (record {
    devices_distinct = n.devices_distinct;
    parents_distinct = n.parents_distinct;
    children_distinct = n.children_distinct;
  })
  | inr other ↦ rw other n
]

-- Hiding a leaf of the tree that exists, where links are in order, no device is hidden and no action is
-- listed, and showing it again: both calls return, and afterwards the tree has the same devices with the
-- same links.
pub unhide-hide :
    (apply cancel : Action → Result (Unit {0})) (depth levels : ℕ) (s : Session) (d : ℕ)
    → s.actions ≡ []
    → IsLinked (view s.tree)
    → HasNoCopies s.tree
    → s.tree.hidden ≡ []
    → elem d s.tree.devices ≡ true
    → (s.tree.node d).exists ≡ true
    → is_leaf s.tree d ≡ true
    → (s' : Session) × (t : DeviceTree) × (hide apply cancel depth (suc levels) s d ≡ ok s')
      × (unhide depth s'.tree d ≡ ok t)
      × (view t ≡ view s.tree)
unfolding hide view
unhide-hide apply cancel depth levels s d empty linked n none_hidden there exists leaf =
    let step = remove_device-refines s.tree d true linked n there leaf in
    let moved = record step.after { hidden = step.after.hidden ++ d ∷ [] } in
    let t1 = forget_pv moved d in
    let left : view t1 ≡ detach d (view s.tree) = view-forget_pv moved d ∙ step.same_view in
    let copies : HasNoCopies t1 = HasNoCopies-forget_pv moved d (record {
      devices_distinct = step.no_copies.devices_distinct;
      parents_distinct = step.no_copies.parents_distinct;
      children_distinct = step.no_copies.children_distinct;
    }) in
    let only : t1.hidden ≡ d ∷ [] =
      hidden-forget_pv moved d ∙ ap (λ h. h ++ d ∷ []) (step.same_hidden ∙ none_hidden) in
    let not_hidden : elem d s.tree.hidden ≡ false = ap (elem d) none_hidden in
    let no_children = ap (sort_children s.tree) (childless s.tree d leaf) in
    (
      record s { tree = t1 },
      shown s.tree t1 d depth linked,
      rw
          (
            not_hidden,
            hide,
            cancels_nothing apply cancel depth s d empty,
            no_children,
            exists,
            step.returns,
          )
          refl,
      unhide-shown s.tree t1 d depth linked copies left there only,
      view-shown s.tree t1 d depth linked left there,
    )

-- ===== src/DeviceTree/Session.antt =====
-- `add` and `remove` of blivet/actionlist.py with the hooks of blivet/devicetree.py: the list of actions
-- and the tree of devices change together.
use blivet.Prelude.{
  ◌≡◌, refl, ap, ◌∙◌, true, false, Result, ok, ◌>>=◌, ◌>>◌, List, [], ◌∷◌, ◌++◌, ◌==◌, ==_refl,
  elem, arith,
}
use blivet.Actions.Model.{Action, destroy_device}
use blivet.Actions.List.{is_listed, remove_action}
use blivet.DeviceTree.Store.{DeviceTree, is_leaf}
use blivet.DeviceTree.Register.{register_action, cancel_action}
use blivet.DeviceTree.View.{view, IsLinked, HasNoCopies}
use blivet.DeviceTree.Cancel.{HasOwnUuid, cancel_action-register_action}

pub record Session : Type 0 where
  pub tree : DeviceTree
  pub actions : List Action

-- `ActionList.add` and `ActionList.remove`, where the list is that of the tree. What `apply` and `cancel`
-- of an action give is a parameter.
module _ (apply cancel : Action → Result (Unit {0})) where
  unfoldable pub add_action : Session → Action → Result Session
  add_action s a = do
    tree ← register_action s.tree a.kind a.device.id
    apply a
    ok (record { tree = tree; actions = s.actions ++ a ∷ [] })

  unfoldable pub cancel_listed : Session → Action → Result Session
  cancel_listed s a = do
    tree ← cancel_action s.tree a.kind a.device.id
    cancel a
    actions ← remove_action a s.actions
    ok (record { tree = tree; actions = actions })

remove_action-snoc :
    (a : Action) (actions : List Action)
    → is_listed a actions ≡ false
    → remove_action a (actions ++ a ∷ []) ≡ ok actions
unfolding remove_action
remove_action-snoc a [] h = rw (==_refl a.id) refl
remove_action-snoc a (b ∷ actions) h =
    let other : (b.id == a.id) ≡ false = ground (arith, h) in
    rw (other, remove_action-snoc a actions (ground (arith, h))) refl

-- An action that destroys a leaf of the tree, where links are in order, where the device is not made of
-- other LVs and has a UUID of its own, or none, where the action is not listed yet, and where its own
-- `apply` and `cancel` return: adding the action returns, removing it then returns, and afterwards the
-- list of actions is as it was before, and the tree has the same devices with the same links.
pub cancel_listed-add_action :
    (apply cancel : Action → Result (Unit {0})) (s : Session) (a : Action)
    → a.kind ≡ destroy_device
    → apply a ≡ ok tt
    → cancel a ≡ ok tt
    → is_listed a s.actions ≡ false
    → IsLinked (view s.tree)
    → HasNoCopies s.tree
    → elem a.device.id s.tree.devices ≡ true
    → is_leaf s.tree a.device.id ≡ true
    → (s.tree.node a.device.id).from_lvs ≡ []
    → HasOwnUuid s.tree a.device.id
    → (added : Session) × (restored : Session) × (add_action apply cancel s a ≡ ok added)
      × (cancel_listed apply cancel added a ≡ ok restored)
      × (restored.actions ≡ s.actions)
      × (view restored.tree ≡ view s.tree)
unfolding add_action cancel_listed
cancel_listed-add_action apply cancel s a destroys applies cancels new linked no_copies there leaf
      plain own =
    let (tree, registered, back) =
      cancel_action-register_action s.tree a.device.id linked no_copies there leaf plain own in
    let into = ap (λ k. register_action s.tree k a.device.id) destroys ∙ registered in
    let out = ap (λ k. cancel_action tree k a.device.id) destroys ∙ back.returns in
    (
      record { tree = tree; actions = s.actions ++ a ∷ [] },
      record { tree = back.after; actions = s.actions },
      rw (into, applies) refl,
      rw (out, cancels, remove_action-snoc a s.actions new) refl,
      refl,
      back.same_view,
    )

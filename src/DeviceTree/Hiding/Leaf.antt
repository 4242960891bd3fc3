-- ===== src/DeviceTree/Hiding/Leaf.antt =====
-- The end of `hide` of blivet/devicetree.py: the device itself, as a leaf.
use blivet.Prelude.{
  ℕ, suc, ◌<◌, ◌≡◌, ◌⊎◌, refl, ap, ◌∙◌, true, false, ◌&&◌, ◌||◌, not, Result, ok, List, [], ◌∷◌,
  ◌++◌, arith, ◌==◌, if◌then◌else◌, elem, elem-snoc, inl, inr, Bool-cases, ==_iff,
}
use blivet.Actions.Model.{Action}
use blivet.DeviceTree.Store.{DeviceTree}
use blivet.DeviceTree.Registry.{remove_device}
use blivet.DeviceTree.Session.{Session}
use blivet.DeviceTree.View.{View, view, IsLinked, detach}
use blivet.DeviceTree.Changed.{is_leaf-childless}
use blivet.DeviceTree.Refine.{Step, remove_device-refines}
use blivet.DeviceTree.Ancestors.{Ancestor, parent}
use blivet.DeviceTree.Hide.{
  forget_pv, cancel_disk_actions, cancel_each, get_disk_actions, hide_leaf,
}
use blivet.DeviceTree.Hidden.{
  IsSettled, Shrinks, Shrinks-refl, Shrinks-trans, Falls, Ancestor-level, Ancestor-same,
  Ancestor-extend,
}

-- The device itself leaves, as a leaf.
module _ (t : DeviceTree) (d : ℕ) where
  moved : DeviceTree → DeviceTree
  moved t' = record t' { hidden = t'.hidden ++ d ∷ [] }

  moved-Shrinks :
      (step : Step t (remove_device t d true) (detach d (view t)))
      → IsSettled t
      → Shrinks t (moved step.after) (λ j. j ≡ d)
  unfolding moved view detach
  moved-Shrinks step settled =
      let present : (j : ℕ) → elem j step.after.devices ≡ (elem j t.devices && not (j == d)) =
        λ j. ap (λ (v : View). v.present j) step.same_view in
      let child : (p j : ℕ)
          → elem j (step.after.node p).children
            ≡ (elem j (t.node p).children && not (elem p (t.node d).parents && j == d)) =
        λ p j. ap (λ (v : View). v.child p j) step.same_view in
      let hidden : (j : ℕ) → elem j (step.after.hidden ++ d ∷ []) ≡ (elem j t.hidden || j == d) =
        λ j. elem-snoc j d step.after.hidden ∙ ap (λ h. elem j h || j == d) step.same_hidden in
      record {
        settled = record {
          linked = step.linked;
          no_copies = record {
            devices_distinct = step.no_copies.devices_distinct;
            parents_distinct = step.no_copies.parents_distinct;
            children_distinct = step.no_copies.children_distinct;
          };
          children_in = λ p j h. elim (Bool-cases (j == d)) [
            | inl same ↦
                let e : elem p (t.node j).parents ≡ elem p (t.node d).parents =
                  ap (λ x. elem p (t.node x).parents) ((==_iff j d).0 same) in
                ground (arith, e, same, child p j, settled.linked.child_of j p)
            | inr other ↦ ground (arith, other, present j, child p j, settled.children_in p j)
          ];
          apart = λ j h. ground (arith, present j, hidden j, settled.apart j);
          exist = λ j h. step.same_exists j ∙ settled.exist j (ground (arith, present j));
        };
        same_parents = λ j p. ap (λ (v : View). v.parent j p) step.same_view;
        fewer_children = λ p j h. ground (arith, child p j);
        fewer = λ j h. ground (arith, present j);
        gone = λ j h h'. ground (arith, present j);
        now_hidden = λ j h h'. ground (arith, present j, hidden j);
        still_hidden = λ j h. ground (arith, hidden j);
      }

forget_pv-Shrinks :
    (t t' : DeviceTree) (d : ℕ) (Why : ℕ → Type 0)
    → Shrinks t t' Why
    → Shrinks t (forget_pv t' d) Why
unfolding view
forget_pv-Shrinks t t' d Why s = elim (Bool-cases (t'.node d).format_is_pv) [
  | inr other ↦ rw other s
  | inl pv ↦ rw pv (record {
    settled = record {
      linked = s.settled.linked;
      no_copies = record {
        devices_distinct = s.settled.no_copies.devices_distinct;
        parents_distinct = s.settled.no_copies.parents_distinct;
        children_distinct = s.settled.no_copies.children_distinct;
      };
      children_in = s.settled.children_in;
      apart = s.settled.apart;
      exist = s.settled.exist;
    };
    same_parents = s.same_parents;
    fewer_children = s.fewer_children;
    fewer = s.fewer;
    gone = s.gone;
    now_hidden = s.now_hidden;
    still_hidden = s.still_hidden;
  })
]

pub hidden-forget_pv : (t : DeviceTree) (d : ℕ) → (forget_pv t d).hidden ≡ t.hidden
hidden-forget_pv t d = elim (Bool-cases (t.node d).format_is_pv) [
  | inr other ↦ rw other refl
  | inl pv ↦ rw pv refl
]

-- A device is another, or depends on it.
abbrev pub Below : DeviceTree → ℕ → ℕ → Type 0
Below t d j = (j ≡ d) ⊎ Ancestor t j d

pub Below-same :
    (t t' : DeviceTree)
    → ((j p : ℕ) → elem p (t'.node j).parents ≡ elem p (t.node j).parents)
    → {d j : ℕ} → Below t' d j
    → Below t d j
Below-same t t' same (inl e) = inl e
Below-same t t' same (inr up) = inr (Ancestor-same t t' same up)

pub Below-extend :
    (t : DeviceTree) {d c j : ℕ} → Below t c j → elem d (t.node c).parents ≡ true → Below t d j
Below-extend t {d} (inl e) h = inr (parent (ap (λ x. elem d (t.node x).parents) e ∙ h))
Below-extend t (inr up) h = inr (Ancestor-extend t up h)

pub Below-level :
    (t : DeviceTree) (level : ℕ → ℕ)
    → IsLinked (view t)
    → Falls t level
    → {d a : ℕ} → Below t a d
    → elem d t.devices ≡ true
    → level d < suc (level a)
Below-level t level l falls (inl e) there = rw e (omega arith)
Below-level t level l falls (inr up) there = omega (arith, Ancestor-level t level l falls up there)

-- What a call of `hide` gives.
unfoldable pub Hid : Session → ℕ → Result Session → Type 0
Hid s d result =
    (s' : Session) × (result ≡ ok s')
    × (s'.actions ≡ [])
    × Shrinks s.tree s'.tree (Below s.tree d)
    × (elem d s'.tree.hidden ≡ true)

module _ (apply cancel : Action → Result (Unit {0})) (depth : ℕ) where
  -- With an empty list, there is nothing to cancel.
  cancel_disk_actions-none :
      (s : Session) (ds : List ℕ)
      → s.actions ≡ []
      → cancel_disk_actions apply cancel depth s ds ≡ ok s
  unfolding cancel_disk_actions get_disk_actions cancel_each
  cancel_disk_actions-none s ds e = rw e refl

  pub cancels_nothing :
      (s : Session) (d : ℕ)
      → s.actions ≡ []
      → (if (s.tree.node d).is_disk
          then cancel_disk_actions apply cancel depth s (d ∷ [])
          else ok s)
        ≡ ok s
  cancels_nothing s d empty = elim (Bool-cases (s.tree.node d).is_disk) [
    | inl disk ↦ rw disk (cancel_disk_actions-none s (d ∷ []) empty)
    | inr other ↦ rw other refl
  ]

  pub hide_leaf-Hid :
      (s : Session) (d : ℕ)
      → s.actions ≡ []
      → IsSettled s.tree
      → elem d s.tree.devices ≡ true
      → ((j : ℕ) → elem j (s.tree.node d).children ≡ false)
      → Hid s d (hide_leaf apply cancel depth s d)
  unfolding Hid moved
  hide_leaf-Hid s d empty settled there leaf =
      let step =
        remove_device-refines s.tree d true settled.linked settled.no_copies there
          (is_leaf-childless s.tree d leaf) in
      let t' = moved s.tree d step.after in
      let left = moved-Shrinks s.tree d step settled in
      (
        record s { tree = forget_pv t' d },
        rw (settled.exist d there, step.returns) refl,
        empty,
        forget_pv-Shrinks s.tree t' d _ (
            Shrinks-trans s.tree t' t' _ (λ j. j ≡ d) (λ j. j ≡ d) (λ j e. inl e) (λ j e. inl e)
              left (Shrinks-refl t' _ left.settled)),
        rw (hidden-forget_pv t' d) (elem-snoc d d step.after.hidden ∙ ground arith),
      )

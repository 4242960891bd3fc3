-- ===== src/DeviceTree/Removed.antt =====
-- How a tree of blivet/devicetree.py changes as leaves are removed from it.
use blivet.Prelude.{
  ℕ, ◌≡◌, ◌⊎◌, refl, sym, ap, ◌∙◌, subst, Bool, true, false, ◌&&◌, ◌||◌, not, ok, List, [], ◌∷◌,
  arith, ◌==◌, elem, inl, inr, Bool-cases, ==_iff,
}
use blivet.DeviceTree.Store.{Node, DeviceTree, set_node, is_leaf}
use blivet.DeviceTree.View.{View, view, view-≡, IsLinked, HasNoCopies, detach}
use blivet.DeviceTree.Changed.{is_leaf-childless, is_leaf-child}
use blivet.DeviceTree.Refine.{remove_device-refines}
use blivet.DeviceTree.Remove.{unformatted, clear_format, drop_device}

-- Links are in order, and children are in the tree.
pub record IsIntact (t : DeviceTree) : Type 0 where
  pub linked : IsLinked (view t)
  pub no_copies : HasNoCopies t
  pub children_in : (p j : ℕ) → elem j (t.node p).children ≡ true → elem j t.devices ≡ true

-- The devices of a list have left the tree, and no other.
pub record IsLess (t : DeviceTree) (ds : List ℕ) (t' : DeviceTree) : Type 0 where
  pub intact : IsIntact t'
  pub same_parents : (j p : ℕ) → elem p (t'.node j).parents ≡ elem p (t.node j).parents
  pub fewer_children :
      (p j : ℕ) → elem j (t'.node p).children ≡ true → elem j (t.node p).children ≡ true
  pub present : (j : ℕ) → elem j t'.devices ≡ (elem j t.devices && not (elem j ds))

pub IsLess-refl : (t : DeviceTree) → IsIntact t → IsLess t [] t
IsLess-refl t intact = record {
  intact = intact;
  same_parents = λ j p. refl;
  fewer_children = λ p j h. h;
  present = λ j. ground arith;
}

pub IsLess-trans :
    {t t' t'' : DeviceTree} {ds es : List ℕ} (fs : List ℕ)
    → ((j : ℕ) → elem j fs ≡ (elem j ds || elem j es))
    → IsLess t ds t'
    → IsLess t' es t''
    → IsLess t fs t''
IsLess-trans fs e s s' = record {
  intact = s'.intact;
  same_parents = λ j p. s'.same_parents j p ∙ s.same_parents j p;
  fewer_children = λ p j h. s.fewer_children p j (s'.fewer_children p j h);
  present = λ j. ground (arith, e j, s.present j, s'.present j);
}

-- A leaf stays a leaf.
pub is_leaf-IsLess :
    {t t' : DeviceTree} {ds : List ℕ}
    → IsLess t ds t'
    → (d : ℕ) → is_leaf t d ≡ true
    → is_leaf t' d ≡ true
is_leaf-IsLess {t} {t'} s d leaf = is_leaf-childless t' d (λ j.
    elim (Bool-cases (elem j (t'.node d).children)) [
      | inl child ↦ let was = s.fewer_children d j child in let out = is_leaf-child t d leaf j in cc
      | inr other ↦ other
    ])

-- Without its format, a device keeps its other attributes.
clear_format_cases :
    (t : DeviceTree) (d : ℕ)
    → (clear_format t d ≡ t) ⊎ (clear_format t d ≡ set_node t d (unformatted (t.node d)))
clear_format_cases t d = elim (Bool-cases (t.node d).format_immutable) [
  | inl immutable ↦ inl (rw immutable refl)
  | inr free ↦ inr (rw free refl)
]

field-clear_format {ℓ} :
    {A : Type ℓ} (f : Node → A)
    → ((n : Node) → f (unformatted n) ≡ f n)
    → (t : DeviceTree) (d j : ℕ) → f ((clear_format t d).node j) ≡ f (t.node j)
field-clear_format f keeps t d j = elim (clear_format_cases t d) [
  | inl same ↦ ap (λ (x : DeviceTree). f (x.node j)) same
  | inr cleared ↦ ap (λ (x : DeviceTree). f (x.node j)) cleared ∙ elim (Bool-cases (j == d)) [
    | inl same ↦ rw same (keeps (t.node d) ∙ ap (λ x. f (t.node x)) (sym ((==_iff j d).0 same)))
    | inr other ↦ rw other refl
  ]
]

pub devices-clear_format : (t : DeviceTree) (d : ℕ) → (clear_format t d).devices ≡ t.devices
devices-clear_format t d = elim (Bool-cases (t.node d).format_immutable) [
  | inl immutable ↦ rw immutable refl
  | inr free ↦ rw free refl
]

parents-clear_format :
    (t : DeviceTree) (d j : ℕ) → ((clear_format t d).node j).parents ≡ (t.node j).parents
parents-clear_format t d j = field-clear_format (λ (n : Node). n.parents) (λ n. refl) t d j

children-clear_format :
    (t : DeviceTree) (d j : ℕ) → ((clear_format t d).node j).children ≡ (t.node j).children
children-clear_format t d j = field-clear_format (λ (n : Node). n.children) (λ n. refl) t d j

pub is_leaf-clear_format : (t : DeviceTree) (d j : ℕ) → is_leaf (clear_format t d) j ≡ is_leaf t j
is_leaf-clear_format t d j =
    field-clear_format (λ (n : Node). elim n.children as (λ _. Bool) [ [] ↦ true | _ ∷ _ ↦ false ])
      (λ n. refl) t d j

pub clear_format-IsLess : (t : DeviceTree) (d : ℕ) → IsIntact t → IsLess t [] (clear_format t d)
unfolding view
clear_format-IsLess t d intact =
    let c = clear_format t d in
    let same_view : view c ≡ view t =
      view-≡ (λ j. ap (elem j) (devices-clear_format t d))
        (λ j p. ap (elem p) (parents-clear_format t d j))
        (λ p j. ap (elem j) (children-clear_format t d p)) in
    record {
      intact = record {
        linked = subst IsLinked (sym same_view) intact.linked;
        no_copies = record {
          devices_distinct = rw (devices-clear_format t d) intact.no_copies.devices_distinct;
          parents_distinct =
              λ j. rw (parents-clear_format t d j) (intact.no_copies.parents_distinct j);
          children_distinct =
              λ j. rw (children-clear_format t d j) (intact.no_copies.children_distinct j);
        };
        children_in = λ p j h.
            ap (elem j) (devices-clear_format t d)
            ∙ intact.children_in p j (sym (ap (elem j) (children-clear_format t d p)) ∙ h);
      };
      same_parents = λ j p. ap (elem p) (parents-clear_format t d j);
      fewer_children = λ p j h. sym (ap (elem j) (children-clear_format t d p)) ∙ h;
      present = λ j. ap (elem j) (devices-clear_format t d) ∙ ground arith;
    }

-- A leaf of the tree is removed, and its parents no longer have it as a child.
drop_leaf :
    (modparent : Bool) (t : DeviceTree) (d : ℕ)
    → IsIntact t
    → elem d t.devices ≡ true
    → is_leaf t d ≡ true
    → (t' : DeviceTree) × (drop_device modparent t d ≡ ok t') × IsLess t (d ∷ []) t'
unfolding view detach
drop_leaf modparent t d intact there leaf =
    let step = remove_device-refines t d false intact.linked intact.no_copies there leaf in
    let present : (j : ℕ) → elem j step.after.devices ≡ (elem j t.devices && not (j == d)) =
      λ j. ap (λ (v : View). v.present j) step.same_view in
    let child : (p j : ℕ)
        → elem j (step.after.node p).children
          ≡ (elem j (t.node p).children && not (elem p (t.node d).parents && j == d)) =
      λ p j. ap (λ (v : View). v.child p j) step.same_view in
    (
      step.after,
      step.returns,
      record {
        intact = record {
          linked = step.linked;
          no_copies = step.no_copies;
          children_in = λ p j h. elim (Bool-cases (j == d)) [
            | inl same ↦
                let e : elem p (t.node j).parents ≡ elem p (t.node d).parents =
                  ap (λ x. elem p (t.node x).parents) ((==_iff j d).0 same) in
                ground (arith, e, same, child p j, intact.linked.child_of j p)
            | inr other ↦ ground (arith, other, present j, child p j, intact.children_in p j)
          ];
        };
        same_parents = λ j p. ap (λ (v : View). v.parent j p) step.same_view;
        fewer_children = λ p j h. ground (arith, child p j);
        present = λ j. ground (arith, present j);
      },
    )

pub remove_leaf-IsLess :
    (modparent : Bool) (t : DeviceTree) (d : ℕ)
    → IsIntact t
    → elem d t.devices ≡ true
    → is_leaf t d ≡ true
    → (t' : DeviceTree) × (drop_device modparent (clear_format t d) d ≡ ok t')
      × IsLess t (d ∷ []) t'
remove_leaf-IsLess modparent t d intact there leaf =
    let c = clear_format t d in
    let cleared = clear_format-IsLess t d intact in
    let (t', returns, less) =
      drop_leaf modparent c d cleared.intact (ap (elem d) (devices-clear_format t d) ∙ there)
        (is_leaf-IsLess cleared d leaf) in
    (t', returns, IsLess-trans (d ∷ []) (λ j. refl) cleared less)

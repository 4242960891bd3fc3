-- ===== src/DeviceTree/Hidden.antt =====
-- How a tree of blivet/devicetree.py changes as devices are hidden.
use blivet.Prelude.{
  ℕ, ◌<◌, ◌≡◌, refl, sym, ap, ◌∙◌, true, false, ◌||◌, List, [], ◌∷◌, arith, ◌==◌, elem, inl, inr,
  Bool-cases,
}
use blivet.DeviceTree.Store.{DeviceTree}
use blivet.DeviceTree.View.{view, IsLinked, HasNoCopies}
use blivet.DeviceTree.Ancestors.{Ancestor, parent, above}
use blivet.DeviceTree.Hide.{insert_child, sort_children}

-- Links are in order, children are in the tree, hidden devices are not, and all devices of it exist.
pub record IsSettled (t : DeviceTree) : Type 0 where
  pub linked : IsLinked (view t)
  pub no_copies : HasNoCopies t
  pub children_in : (p j : ℕ) → elem j (t.node p).children ≡ true → elem j t.devices ≡ true
  pub apart : (j : ℕ) → elem j t.hidden ≡ true → elem j t.devices ≡ false
  pub exist : (j : ℕ) → elem j t.devices ≡ true → (t.node j).exists ≡ true

-- Devices have left the tree for the hidden ones, each for a reason.
pub record Shrinks (t t' : DeviceTree) (Why : ℕ → Type 0) : Type 0 where
  pub settled : IsSettled t'
  pub same_parents : (j p : ℕ) → elem p (t'.node j).parents ≡ elem p (t.node j).parents
  pub fewer_children :
      (p j : ℕ) → elem j (t'.node p).children ≡ true → elem j (t.node p).children ≡ true
  pub fewer : (j : ℕ) → elem j t'.devices ≡ true → elem j t.devices ≡ true
  pub gone : (j : ℕ) → elem j t.devices ≡ true → elem j t'.devices ≡ false → Why j
  pub now_hidden :
      (j : ℕ) → elem j t.devices ≡ true → elem j t'.devices ≡ false → elem j t'.hidden ≡ true
  pub still_hidden : (j : ℕ) → elem j t.hidden ≡ true → elem j t'.hidden ≡ true

pub Shrinks-refl : (t : DeviceTree) (Why : ℕ → Type 0) → IsSettled t → Shrinks t t Why
Shrinks-refl t Why settled = record {
  settled = settled;
  same_parents = λ j p. refl;
  fewer_children = λ p j h. h;
  fewer = λ j h. h;
  gone = λ j h h'. cc;
  now_hidden = λ j h h'. cc;
  still_hidden = λ j h. h;
}

pub Shrinks-trans :
    (t t' t'' : DeviceTree) (Why First Then : ℕ → Type 0)
    → ((j : ℕ) → First j → Why j)
    → ((j : ℕ) → Then j → Why j)
    → Shrinks t t' First
    → Shrinks t' t'' Then
    → Shrinks t t'' Why
Shrinks-trans t t' t'' Why First Then why why' s s' = record {
  settled = s'.settled;
  same_parents = λ j p. s'.same_parents j p ∙ s.same_parents j p;
  fewer_children = λ p j h. s.fewer_children p j (s'.fewer_children p j h);
  fewer = λ j h. s.fewer j (s'.fewer j h);
  gone = λ j h h'. elim (Bool-cases (elem j t'.devices)) [
    | inl between ↦ why' j (s'.gone j between h')
    | inr before ↦ why j (s.gone j h before)
  ];
  now_hidden = λ j h h'. elim (Bool-cases (elem j t'.devices)) [
    | inl between ↦ s'.now_hidden j between h'
    | inr before ↦ s'.still_hidden j (s.now_hidden j h before)
  ];
  still_hidden = λ j h. s'.still_hidden j (s.still_hidden j h);
}

-- A device of the tree or a hidden one is so afterwards.
pub known-Shrinks :
    {t t' : DeviceTree} {Why : ℕ → Type 0}
    → Shrinks t t' Why
    → (j : ℕ) → (elem j t.devices || elem j t.hidden) ≡ true
    → (elem j t'.devices || elem j t'.hidden) ≡ true
known-Shrinks {t} {t'} s j h = elim (Bool-cases (elem j t.devices)) [
  | inl present ↦ elim (Bool-cases (elem j t'.devices)) [
    | inl still ↦ ground (arith, still)
    | inr left ↦ ground (arith, s.now_hidden j present left)
  ]
  | inr absent ↦ ground (arith, s.still_hidden j (ground (arith, absent)))
]

-- Levels fall from a device to its children.
abbrev pub Falls : DeviceTree → (ℕ → ℕ) → Type 0
Falls t level = (p j : ℕ) → elem j (t.node p).children ≡ true → level j < level p

pub Ancestor-level :
    (t : DeviceTree) (level : ℕ → ℕ)
    → IsLinked (view t)
    → Falls t level
    → {d a : ℕ} → Ancestor t d a
    → elem d t.devices ≡ true
    → level d < level a
unfolding view
Ancestor-level t level l falls {d} (parent {p = p} h) there = falls p d (l.known d p there h)
Ancestor-level t level l falls {d} {a} (above {p = p} h up) there =
    let first = falls p d (l.known d p there h) in
    let rest = Ancestor-level t level l falls up (l.parents_in d p there h) in omega arith

pub Ancestor-same :
    (t t' : DeviceTree)
    → ((j p : ℕ) → elem p (t'.node j).parents ≡ elem p (t.node j).parents)
    → {d a : ℕ} → Ancestor t' d a
    → Ancestor t d a
Ancestor-same t t' same {d} (parent {p = p} h) = parent (sym (same d p) ∙ h)
Ancestor-same t t' same {d} (above {p = p} h up) =
    above (sym (same d p) ∙ h) (Ancestor-same t t' same up)

pub Ancestor-extend :
    (t : DeviceTree) {j c d : ℕ}
    → Ancestor t j c
    → elem d (t.node c).parents ≡ true
    → Ancestor t j d
Ancestor-extend t (parent h) e = above h (parent e)
Ancestor-extend t (above h up) e = above h (Ancestor-extend t up e)

elem-insert_child :
    (t : DeviceTree) (c j : ℕ) (xs : List ℕ) → elem j (insert_child t c xs) ≡ (j == c || elem j xs)
elem-insert_child t c j [] = refl
elem-insert_child t c j (x ∷ xs) = ground (arith, elem-insert_child t c j xs)

pub elem-sort_children :
    (t : DeviceTree) (j : ℕ) (xs : List ℕ) → elem j (sort_children t xs) ≡ elem j xs
elem-sort_children t j [] = refl
elem-sort_children t j (x ∷ xs) =
    elem-insert_child t x j (sort_children t xs) ∙ ap (λ b. j == x || b) (elem-sort_children t j xs)

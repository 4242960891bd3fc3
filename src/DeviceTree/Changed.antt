-- ===== src/DeviceTree/Changed.antt =====
-- The tree of blivet/devicetree.py after the hooks of a device have changed its links and the list has
-- changed; and leaves, by their children.
use blivet.Prelude.{
  ℕ, ◌≡◌, refl, Bool, true, false, List, [], ◌∷◌, arith, if◌then◌else◌, elem, IsDistinct, inl, inr,
  Bool-cases,
}
use blivet.DeviceTree.Store.{DeviceTree, is_leaf}
use blivet.DeviceTree.Links.{change_children}
use blivet.DeviceTree.View.{HasNoCopies}

-- The tree after the links and the list have changed.
module _ (f : List ℕ → List ℕ) (t : DeviceTree) (ps devices : List ℕ) where
  abbrev pub changed : DeviceTree
  changed = record (change_children f ps t) { devices = devices }

  pub parents-changed : (j : ℕ) → (changed.node j).parents ≡ (t.node j).parents
  unfolding change_children
  parents-changed j = elim (Bool-cases (elem j ps)) [ inl h ↦ rw h refl | inr h ↦ rw h refl ]

  pub uuid-changed : (j : ℕ) → (changed.node j).uuid ≡ (t.node j).uuid
  unfolding change_children
  uuid-changed j = elim (Bool-cases (elem j ps)) [ inl h ↦ rw h refl | inr h ↦ rw h refl ]

  pub from_lvs-changed : (j : ℕ) → (changed.node j).from_lvs ≡ (t.node j).from_lvs
  unfolding change_children
  from_lvs-changed j = elim (Bool-cases (elem j ps)) [ inl h ↦ rw h refl | inr h ↦ rw h refl ]

  pub exists-changed : (j : ℕ) → (changed.node j).exists ≡ (t.node j).exists
  unfolding change_children
  exists-changed j = elim (Bool-cases (elem j ps)) [ inl h ↦ rw h refl | inr h ↦ rw h refl ]

  pub children-changed :
      (j : ℕ)
      → (changed.node j).children
        ≡ (if elem j ps then f (t.node j).children else (t.node j).children)
  unfolding change_children
  children-changed j = elim (Bool-cases (elem j ps)) [ inl h ↦ rw h refl | inr h ↦ rw h refl ]

  pub HasNoCopies-changed :
      HasNoCopies t
      → IsDistinct devices
      → ((j : ℕ) → elem j ps ≡ true → IsDistinct (f (t.node j).children))
      → HasNoCopies changed
  HasNoCopies-changed n d c = record {
    devices_distinct = d;
    parents_distinct = λ j. rw (parents-changed j) (n.parents_distinct j);
    children_distinct = λ j. elim (Bool-cases (elem j ps)) [
      | inl h ↦ rw (children-changed j, h) (c j h)
      | inr h ↦ rw (children-changed j, h) (n.children_distinct j)
    ];
  }

pub is_leaf-child :
    (t : DeviceTree) (d : ℕ) → is_leaf t d ≡ true → (j : ℕ) → elem j (t.node d).children ≡ false
is_leaf-child t d h j = go (t.node d).children h
  where
    go :
        (xs : List ℕ)
        → elim xs as (λ _. Bool) [ [] ↦ true | _ ∷ _ ↦ false ] ≡ true
        → elem j xs ≡ false
    go [] h' = refl
    go (x ∷ xs) h' = cc

pub is_leaf-childless :
    (t : DeviceTree) (d : ℕ) → ((j : ℕ) → elem j (t.node d).children ≡ false) → is_leaf t d ≡ true
is_leaf-childless t d h = go (t.node d).children h
  where
    go :
        (xs : List ℕ)
        → ((j : ℕ) → elem j xs ≡ false)
        → elim xs as (λ _. Bool) [ [] ↦ true | _ ∷ _ ↦ false ] ≡ true
    go [] h' = refl
    go (x ∷ xs) h' = ground (arith, h' x)

-- ===== src/Tsort/Invariant.antt =====
-- What the loops of blivet/tsort.py keep, for the nodes `items` and the edges `given`.
use blivet.Prelude.{
  ℕ, suc, ◌≡◌, sym, Bool, true, false, ◌||◌, ok, >>=-eq-ok, ok-injective, subst, arith, ℤ, pos,
  List, [], ◌∷◌, if◌then◌else◌, ◌==◌, ==_iff, Bool-cases, inl, inr, ◌⊎◌, Option, none, some, elem,
  IsDistinct,
}
use blivet.Tsort.Graph.{
  Edge, Work, same_edge, is_zero, pred_ℤ, set_count, remove_edge, drop_edge, drop_edges,
}
use blivet.Tsort.Fuel.{drop_edge-eq-ok}

abbrev pub elem_edge : Edge → List Edge → Bool
elem_edge e [] = false
elem_edge e (x ∷ xs) = same_edge x e || elem_edge e xs

-- How many edges end at `c`.
abbrev pub count_in : ℕ → List Edge → ℕ
count_in c [] = 0
count_in c (x ∷ xs) = if x.1 == c then suc (count_in c xs) else count_in c xs

pub remove_edge-split :
    (e x : Edge) (xs : List Edge) {ys : List Edge}
    → remove_edge e (x ∷ xs) ≡ ok ys
    → ((same_edge x e ≡ true) × (ys ≡ xs))
      ⊎ ((zs : List Edge) × (same_edge x e ≡ false) × (remove_edge e xs ≡ ok zs) × (ys ≡ x ∷ zs))
unfolding remove_edge
remove_edge-split e x xs h = elim (Bool-cases (same_edge x e)) [
  | inl same ↦ inl (same, ground arith)
  | inr differs ↦
      let (zs, removed, last) = >>=-eq-ok (remove_edge e xs) _ (rw (differs, remove_edge) at h) in
      inr (zs, differs, removed, ok-injective (sym last))
]

remove_edge-count :
    (e : Edge) (xs : List Edge) (c : ℕ) {ys : List Edge}
    → remove_edge e xs ≡ ok ys
    → count_in c xs ≡ (if e.1 == c then suc (count_in c ys) else count_in c ys)
remove_edge-count e [] c h = unfold remove_edge in cc
remove_edge-count e (x ∷ xs) c h = elim (remove_edge-split e x xs h) [
  | inl (same, all) ↦ rw all (ground arith)
  | inr (zs, differs, removed, all) ↦ rw all (ground (arith, remove_edge-count e xs c removed))
]

remove_edge-elem :
    (e : Edge) (xs : List Edge) (f : Edge) {ys : List Edge}
    → remove_edge e xs ≡ ok ys
    → elem_edge f xs ≡ true
    → (same_edge e f ≡ true) ⊎ (elem_edge f ys ≡ true)
remove_edge-elem e [] f h m = cc
remove_edge-elem e (x ∷ xs) f h m = elim (remove_edge-split e x xs h) [
  | inl (same, all) ↦ rw all (ground arith)
  | inr (zs, differs, removed, all) ↦ rw all (ground (arith, remove_edge-elem e xs f removed))
]

abbrev pub count_for : List ℕ → List Edge → ℕ → Option ℤ
count_for items edges c = if elem c items then some (pos (count_in c edges)) else none

-- `done` holds the nodes in the order so far, the latest first.
pub record Inv (items : List ℕ) (given : List Edge) (done : List ℕ) (w : Work) : Type 0 where
  -- each node's count is that of its edges that are left
  pub counts : (c : ℕ) → w.incoming c ≡ count_for items w.edges c
  -- an edge is left, or its parent is in the order
  pub parts :
      (p c : ℕ)
      → elem_edge (p, c) given ≡ true
      → (elem p done ≡ true) ⊎ (elem_edge (p, c) w.edges ≡ true)
  -- what is on the stack or in the order has no edge left to it
  pub free_root : (c : ℕ) → elem c w.roots ≡ true → count_in c w.edges ≡ 0
  pub free_done : (c : ℕ) → elem c done ≡ true → count_in c w.edges ≡ 0
  -- a node with no edge left to it is on the stack or in the order
  pub ready :
      (c : ℕ)
      → elem c items ≡ true
      → count_in c w.edges ≡ 0
      → (elem c w.roots ≡ true) ⊎ (elem c done ≡ true)
  -- each node stands once, on the stack or in the order
  pub distinct_roots : IsDistinct w.roots
  pub distinct_done : IsDistinct done
  pub apart : (c : ℕ) → elem c w.roots ≡ true → elem c done ≡ false
  pub known_root : (c : ℕ) → elem c w.roots ≡ true → elem c items ≡ true
  pub known_done : (c : ℕ) → elem c done ≡ true → elem c items ≡ true

module _ {items : List ℕ} {given : List Edge} {done : List ℕ} (e : Edge) (w : Work)
    (inv : Inv items given done w) (from_done : elem e.0 done ≡ true) {n : ℤ} {edges : List Edge}
    (found : w.incoming e.1 ≡ some n) (removed : remove_edge e w.edges ≡ ok edges) where
  -- The child's count, before and after.
  child_known : elem e.1 items ≡ true
  child_known = ground (arith, inv.counts e.1)

  child_count : n ≡ pos (suc (count_in e.1 edges))
  child_count =
      ground (arith, inv.counts e.1, remove_edge-count e w.edges e.1 removed, ==_iff e.1 e.1)

  child_left : pred_ℤ n ≡ pos (count_in e.1 edges)
  child_left = rw child_count

  child_not_root : elem e.1 w.roots ≡ false
  child_not_root =
      ground (arith, inv.free_root e.1, remove_edge-count e w.edges e.1 removed, ==_iff e.1 e.1)

  child_not_done : elem e.1 done ≡ false
  child_not_done =
      ground (arith, inv.free_done e.1, remove_edge-count e w.edges e.1 removed, ==_iff e.1 e.1)

  abbrev after : Work
  after = record {
    roots = if is_zero (pred_ℤ n) then e.1 ∷ w.roots else w.roots;
    edges = edges;
    incoming = set_count w.incoming e.1 (pred_ℤ n);
  }

  after-counts : (c : ℕ) → after.incoming c ≡ count_for items edges c
  after-counts c = ground (
    arith,
    child_left,
    child_known,
    inv.counts c,
    remove_edge-count e w.edges c removed,
    ==_iff c e.1,
    ==_iff e.1 c,
  )

  after-parts :
      (p c : ℕ)
      → elem_edge (p, c) given ≡ true
      → (elem p done ≡ true) ⊎ (elem_edge (p, c) edges ≡ true)
  after-parts p c h = elim (inv.parts p c h) [
    | inl in_order ↦ inl in_order
    | inr left ↦ elim (remove_edge-elem e w.edges (p, c) removed left) [
      | inl same ↦ inl (ground (arith, from_done, ==_iff e.0 p))
      | inr kept ↦ inr kept
    ]
  ]

  after-free_root : (c : ℕ) → elem c after.roots ≡ true → count_in c edges ≡ 0
  after-free_root c =
      ground
        (arith, child_left, inv.free_root c, remove_edge-count e w.edges c removed, ==_iff c e.1)

  after-free_done : (c : ℕ) → elem c done ≡ true → count_in c edges ≡ 0
  after-free_done c = ground (arith, inv.free_done c, remove_edge-count e w.edges c removed)

  after-ready :
      (c : ℕ)
      → elem c items ≡ true
      → count_in c edges ≡ 0
      → (elem c after.roots ≡ true) ⊎ (elem c done ≡ true)
  after-ready c h z = ground (
    arith,
    child_left,
    inv.ready c h,
    remove_edge-count e w.edges c removed,
    ==_iff c e.1,
    ==_iff e.1 c,
  )

  after-IsDistinct : IsDistinct after.roots
  after-IsDistinct = ground (arith, child_left, child_not_root, inv.distinct_roots)

  after-apart : (c : ℕ) → elem c after.roots ≡ true → elem c done ≡ false
  after-apart c = ground (arith, child_left, child_not_done, inv.apart c, ==_iff c e.1)

  after-known_root : (c : ℕ) → elem c after.roots ≡ true → elem c items ≡ true
  after-known_root c = ground (arith, child_left, child_known, inv.known_root c, ==_iff c e.1)

  after-Inv : Inv items given done after
  after-Inv = record {
    counts = after-counts;
    parts = after-parts;
    free_root = after-free_root;
    free_done = after-free_done;
    ready = after-ready;
    distinct_roots = after-IsDistinct;
    distinct_done = inv.distinct_done;
    apart = after-apart;
    known_root = after-known_root;
    known_done = inv.known_done;
  }

pub drop_edge-Inv :
    {items : List ℕ} {given : List Edge} {done : List ℕ} (e : Edge) (w : Work) {w' : Work}
    → Inv items given done w
    → elem e.0 done ≡ true
    → drop_edge e w ≡ ok w'
    → Inv items given done w'
drop_edge-Inv {items} {given} {done} e w inv from_done h =
    let (n, edges, found, removed, last) = drop_edge-eq-ok e w h in
    subst (λ x. Inv items given done x) (sym last) (after-Inv e w inv from_done found removed)

abbrev pub AllFrom : List ℕ → List Edge → Type 0
AllFrom done [] = Unit
AllFrom done (e ∷ es) = (elem e.0 done ≡ true) × AllFrom done es

-- The `for` loop keeps the invariant, where it drops edges from nodes in the order.
pub drop_edges-Inv :
    {items : List ℕ} {given : List Edge} {done : List ℕ} (es : List Edge) (w : Work) {w' : Work}
    → Inv items given done w
    → AllFrom done es
    → drop_edges es w ≡ ok w'
    → Inv items given done w'
unfolding drop_edges
drop_edges-Inv {items} {given} {done} [] w inv from h =
    subst (λ x. Inv items given done x) (ok-injective h) inv
drop_edges-Inv (e ∷ es) w inv from h =
    let (w1, dropped, rest) = >>=-eq-ok (drop_edge e w) _ h in
    drop_edges-Inv es w1 (drop_edge-Inv e w inv from.0 dropped) from.1 rest

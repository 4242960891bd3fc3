-- ===== src/Tsort/Rounds.antt =====
-- The `while` loop of `tsort` in blivet/tsort.py: on a graph whose counts are right it raises
-- nothing, and what it keeps holds at its end.
use blivet.Prelude.{
  ℕ, ◌≡◌, refl, sym, ◌∙◌, ap, Bool, true, false, ok, subst, arith, ℤ, pos, List, [], ◌∷◌, keep,
  if◌then◌else◌, ==_iff, ==_refl, Bool-cases, inl, inr, ◌⊎◌, some, elem,
}
use blivet.Tsort.Graph.{
  Edge, Work, same_edge, is_zero, pred_ℤ, set_count, remove_edge, drop_edge, drop_edges, starts_at,
}
use blivet.Tsort.Fuel.{drop_edge-eq-ok}
use blivet.Tsort.Invariant.{elem_edge, count_in, Inv, drop_edge-Inv, remove_edge-split}

same_edge-eq : (a b : Edge) → same_edge a b ≡ true → (a.0 ≡ b.0) × (a.1 ≡ b.1)
same_edge-eq a b h = (ground arith, ground arith)

same_edge_refl : (a : Edge) → same_edge a a ≡ true
same_edge_refl a = ground (arith, ==_refl a.0, ==_refl a.1)

keep-cons {ℓ} :
    {A : Type ℓ} (q : A → Bool) (x : A) (xs : List A) {e : A} {es : List A}
    → keep q (x ∷ xs) ≡ e ∷ es
    → ((q x ≡ true) × (x ≡ e) × (keep q xs ≡ es)) ⊎ ((q x ≡ false) × (keep q xs ≡ e ∷ es))
keep-cons q x xs h = elim (Bool-cases (q x)) [
  | inl t ↦ inl (t, let h' = rw t at h in cc, let h' = rw t at h in cc)
  | inr f ↦ inr (f, rw f at h)
]

keep-head :
    (root : ℕ) (xs : List Edge) {e : Edge} {es : List Edge}
    → keep (starts_at root) xs ≡ e ∷ es
    → (e.0 ≡ root) × (elem_edge e xs ≡ true)
keep-head root [] h = cc
keep-head root (x ∷ xs) h = elim (keep-cons (starts_at root) x xs h) [
  | inl (t, same, rest) ↦ (ground (arith, same), ground (arith, same, same_edge_refl x))
  | inr (f, rest) ↦ ground (arith, keep-head root xs rest)
]

-- Dropping the first of the edges from a node leaves the others of them.
remove_edge-keep :
    (root : ℕ) (e : Edge) (es xs : List Edge) {ys : List Edge}
    → keep (starts_at root) xs ≡ e ∷ es
    → remove_edge e xs ≡ ok ys
    → keep (starts_at root) ys ≡ es
remove_edge-keep root e es [] k h = cc
remove_edge-keep root e es (x ∷ xs) k h = elim (remove_edge-split e x xs h) [
  | inl (same, all) ↦ rw all (elim (keep-cons (starts_at root) x xs k) [
    | inl (t, _, rest) ↦ rest
    | inr (f, rest) ↦
        absurd (ground (arith, keep-head root xs rest, same_edge-eq x e same, ==_iff x.0 root))
  ])
  | inr (zs, differs, removed, all) ↦ rw all (elim (keep-cons (starts_at root) x xs k) [
    | inl (t, same, _) ↦ absurd (ground (arith, same, same_edge_refl e))
    | inr (f, rest) ↦ rw f (remove_edge-keep root e es xs rest removed)
  ])
]

remove_edge_total :
    (e : Edge) (xs : List Edge)
    → elem_edge e xs ≡ true
    → (ys : List Edge) × (remove_edge e xs ≡ ok ys)
unfolding remove_edge
remove_edge_total e [] h = cc
remove_edge_total e (x ∷ xs) h = elim (Bool-cases (same_edge x e)) [
  | inl same ↦ (xs, rw same)
  | inr differs ↦
      let (ys, removed) = remove_edge_total e xs (rw differs at h) in
      (x ∷ ys, rw (differs, removed))
]

remove_edge-within :
    (e : Edge) (xs : List Edge) (f : Edge) {ys : List Edge}
    → remove_edge e xs ≡ ok ys
    → elem_edge f ys ≡ true
    → elem_edge f xs ≡ true
remove_edge-within e [] f h m = unfold remove_edge in cc
remove_edge-within e (x ∷ xs) f h m = elim (remove_edge-split e x xs h) [
  | inl (same, all) ↦ ground (arith, rw all at m)
  | inr (zs, differs, removed, all) ↦ ground (arith, rw all at m, remove_edge-within e xs f removed)
]

-- One round: it raises nothing, where the edge is there and its child is a node.
drop_edge_total :
    (e : Edge) (w : Work) {n : ℤ}
    → w.incoming e.1 ≡ some n
    → elem_edge e w.edges ≡ true
    → (w' : Work) × (drop_edge e w ≡ ok w')
unfolding drop_edge
drop_edge_total e w {n} found there =
    let (edges, removed) = remove_edge_total e w.edges there in
    (
      record {
        roots = if is_zero (pred_ℤ n) then e.1 ∷ w.roots else w.roots;
        edges = edges;
        incoming = set_count w.incoming e.1 (pred_ℤ n);
      },
      rw (found, drop_edge) (rw removed),
    )

drop_edge-edges :
    (e : Edge) (w : Work) {w' : Work} → drop_edge e w ≡ ok w' → remove_edge e w.edges ≡ ok w'.edges
drop_edge-edges e w h =
    let (n, edges, found, removed, last) = drop_edge-eq-ok e w h in
    removed ∙ ap ok (sym (ap (λ (x : Work). x.edges) last))

-- What the `for` loop leaves, once the edges from `root` are dropped.
pub record Dropped (items : List ℕ) (given : List Edge) (done : List ℕ) (root : ℕ) (w w' : Work)
    : Type 0 where
  pub inv : Inv items given done w'
  pub cleared : keep (starts_at root) w'.edges ≡ []
  pub within : (f : Edge) → elem_edge f w'.edges ≡ true → elem_edge f w.edges ≡ true

module _ {items : List ℕ} {given : List Edge} {done : List ℕ} (root : ℕ)
    (from_done : elem root done ≡ true) where
  pub drop_edges_total :
      (es : List Edge) (w : Work)
      → Inv items given done w
      → ((f : Edge) → elem_edge f w.edges ≡ true → elem f.1 items ≡ true)
      → keep (starts_at root) w.edges ≡ es
      → (w' : Work) × (drop_edges es w ≡ ok w') × Dropped items given done root w w'
  unfolding drop_edges
  drop_edges_total [] w inv known k =
      (w, refl, record { inv = inv; cleared = k; within = λ f m. m })
  drop_edges_total (e ∷ es) w inv known k =
      let (at_root, there) = keep-head root w.edges k in
      let found : w.incoming e.1 ≡ some (pos (count_in e.1 w.edges)) =
        ground (arith, inv.counts e.1, known e there) in
      let (w1, dropped) = drop_edge_total e w found there in
      let removed = drop_edge-edges e w dropped in
      let from = subst (λ x. elem x done ≡ true) (sym at_root) from_done in
      let (w', rest, d) =
        drop_edges_total es w1 (drop_edge-Inv e w inv from dropped)
          (λ f m. known f (remove_edge-within e w.edges f removed m))
          (remove_edge-keep root e es w.edges k removed) in
      (
        w',
        rw dropped rest,
        record {
          inv = d.inv;
          cleared = d.cleared;
          within = λ f m. remove_edge-within e w.edges f removed (d.within f m);
        },
      )

-- ===== src/Tsort/Loop.antt =====
-- The `while` loop of `tsort` in blivet/tsort.py: on a graph whose counts are right it raises
-- nothing, and what holds at its end.
use blivet.Prelude.{
  ℕ, zero, suc, ◌+◌, ◌<◌, ◌≡◌, refl, true, false, ok, arith, List, [], ◌∷◌, length, keep, ◌==◌,
  ==_iff, ==_refl, Bool-cases, inl, inr, elem,
}
use blivet.Tsort.Graph.{Edge, Work, drop_edges, starts_at, pop, visit}
use blivet.Tsort.Fuel.{drop_edges-measure}
use blivet.Tsort.Invariant.{elem_edge, count_in, Inv}
use blivet.Tsort.Rounds.{drop_edges_total}

-- The parents of each node stand behind it in a list that has the latest first.
abbrev pub IsOrdered : List Edge → List ℕ → Type 0
IsOrdered given [] = Unit
IsOrdered given (x ∷ done) =
    ((p : ℕ) → elem_edge (p, x) given ≡ true → elem p done ≡ true) × IsOrdered given done

pub record Loop (items : List ℕ) (given : List Edge) (done : List ℕ) (w : Work) : Type 0 where
  pub inv : Inv items given done w
  -- the edges that are left are given ones, from nodes not in the order
  pub left : (f : Edge) → elem_edge f w.edges ≡ true → elem f.0 done ≡ false
  pub within : (f : Edge) → elem_edge f w.edges ≡ true → elem_edge f given ≡ true
  pub ordered : IsOrdered given done

count_in-pos : (p c : ℕ) (edges : List Edge) → elem_edge (p, c) edges ≡ true → 0 < count_in c edges
count_in-pos p c [] h = cc
count_in-pos p c (x ∷ edges) h = ground (arith, count_in-pos p c edges, ==_iff x.1 c)

keep-nil :
    (root : ℕ) (f : Edge) (edges : List Edge)
    → keep (starts_at root) edges ≡ []
    → elem_edge f edges ≡ true
    → (f.0 == root) ≡ false
keep-nil root f [] k h = cc
keep-nil root f (x ∷ edges) k h = elim (Bool-cases (x.0 == root)) [
  | inl t ↦ let k' = rw t at k in cc
  | inr o ↦ ground (arith, keep-nil root f edges (rw o at k), ==_iff x.0 f.0, ==_iff f.0 root)
]

-- Taking a root off the stack and putting it into the order.
pop-Inv :
    {items : List ℕ} {given : List Edge} {done : List ℕ} (w : Work) (root : ℕ) (rest : List ℕ)
    → Inv items given done w
    → w.roots ≡ root ∷ rest
    → Inv items given (root ∷ done) (pop rest w)
pop-Inv w root rest inv e = record {
  counts = inv.counts;
  parts = λ p c h. ground (arith, inv.parts p c h);
  free_root = λ c h. inv.free_root c (rw e (ground arith));
  free_done = λ c h. ground (arith, inv.free_done c, inv.free_root c, e, ==_iff c root);
  ready = λ c h z. ground (arith, inv.ready c h z, e);
  distinct_roots = (rw e at (inv.distinct_roots)).1;
  distinct_done = (inv.apart root (rw e (ground (arith, ==_refl root))), inv.distinct_done);
  apart = λ c h. ground (arith, (rw e at (inv.distinct_roots)).0, inv.apart c, e, ==_iff c root);
  known_root = λ c h. inv.known_root c (rw e (ground arith));
  known_done = λ c h. ground (arith, inv.known_done c, inv.known_root c, e, ==_iff c root);
}

module _ {items : List ℕ} {given : List Edge}
    (closed : (f : Edge) → elem_edge f given ≡ true → elem f.1 items ≡ true) where
  -- One round of the loop.
  round_total :
      (done : List ℕ) (w : Work) (root : ℕ) (rest : List ℕ)
      → Loop items given done w
      → w.roots ≡ root ∷ rest
      → (w' : Work) × (drop_edges (keep (starts_at root) w.edges) (pop rest w) ≡ ok w')
        × Loop items given (root ∷ done) w'
  round_total done w root rest l e =
      let popped = pop-Inv w root rest l.inv e in
      let (w', dropped, d) =
        drop_edges_total root (ground (arith, ==_refl root)) (keep (starts_at root) w.edges)
          (pop rest w) popped (λ f m. closed f (l.within f m)) refl in
      (
        w',
        dropped,
        record {
          inv = d.inv;
          left =
              λ f m. ground (arith, l.left f (d.within f m), keep-nil root f w'.edges d.cleared m);
          within = λ f m. l.within f (d.within f m);
          ordered = (
            λ p h. ground (
              arith,
              l.inv.parts p root h,
              count_in-pos p root w.edges,
              l.inv.free_root root,
              e,
              ==_refl root,
            ),
            l.ordered,
          );
        },
      )

  -- The loop ends without an exception, with no root left.
  pub visit_total :
      (fuel : ℕ) (done : List ℕ) (w : Work) (roots : List ℕ)
      → Loop items given done w
      → w.roots ≡ roots
      → length roots + length w.edges < fuel
      → (order : List ℕ) × (w' : Work) × (visit fuel done done w roots ≡ ok (order, order))
        × Loop items given order w'
        × (w'.roots ≡ [])
  unfolding visit
  visit_total zero done w roots l e h = elim h [ ]
  visit_total (suc fuel) done w [] l e h = (done, w, refl, l, e)
  visit_total (suc fuel) done w (root ∷ rest) l e h =
      let (w1, dropped, l1) = round_total done w root rest l e in
      let (order, w', visited, l', last) =
        visit_total fuel (root ∷ done) w1 w1.roots l1 refl (
          omega (arith, drop_edges-measure (keep (starts_at root) w.edges) (pop rest w) dropped)) in
      let fresh : elem root done ≡ false = l.inv.apart root (rw e (ground (arith, ==_refl root))) in
      (order, w', rw (fresh, visit) (rw dropped visited), l', last)

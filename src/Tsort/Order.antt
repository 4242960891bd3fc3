-- ===== src/Tsort/Order.antt =====
-- `tsort` of blivet/tsort.py gives a topological order: every node once, parents first.
use blivet.Prelude.{
  ℕ, suc, ◌+◌, ◌≡◌, refl, sym, ◌∙◌, ap, Bool, true, false, Result, ok, err, ok-injective, subst,
  arith, List, [], ◌∷◌, length, if◌then◌else◌, ◌==◌, ==_iff, reverse, Bool-cases, inl, inr,
  cyclic_graph_error, elem, IsDistinct,
}
use blivet.Tsort.Graph.{Edge, Graph, Work, create_graph, work_of, is_empty, visit, sort_from, tsort}
use blivet.Tsort.Invariant.{elem_edge}
use blivet.Tsort.Loop.{Loop, visit_total}
use blivet.Tsort.Members.{
  distinct-covers, precedes, elem-reverse, IsDistinct-reverse, precedes-reverse,
}
use blivet.Tsort.Start.{Built, create_graph-Built, start_total}

sort_from-result :
    (g : Graph) (roots order : List ℕ)
    → visit (suc (length roots + length g.edges)) [] [] (work_of g roots) roots ≡ ok (order, order)
    → is_empty g.items ≡ false
    → sort_from g roots
      ≡ (if length g.items == length order then ok (reverse order) else err cyclic_graph_error)
sort_from-result g [] order visited h =
    let both : ◌≡◌ {A = Result (List ℕ × List ℕ)} (ok ([], [])) (ok (order, order)) =
      unfold visit in visited in
    let same : [] ≡ order = ap (λ (p : List ℕ × List ℕ). p.0) (ok-injective both) in
    rw (← same) (unfold sort_from in ground (arith, nonempty g.items h))
  where
    nonempty : (items : List ℕ) → is_empty items ≡ false → (length items == 0) ≡ false
    nonempty [] h' = cc
    nonempty (x ∷ items) h' = ground arith
sort_from-result g (x ∷ roots) order visited h = unfold sort_from in rw visited (ground arith)

-- What `tsort` does on a graph that has nodes: the order that its loop finds, and the check of the
-- length of that order.
pub record Found (items : List ℕ) (edges : List Edge) (g : Graph) : Type 0 where
  pub order : List ℕ
  pub last : Work
  pub loop : Loop items edges order last
  pub no_roots : last.roots ≡ []
  pub result :
      tsort g
      ≡ (if length items == length order then ok (reverse order) else err cyclic_graph_error)

pub tsort-Found :
    {items : List ℕ} {edges : List Edge} {g : Graph}
    → is_empty items ≡ false
    → Built items edges g
    → IsDistinct items
    → Found items edges g
unfolding tsort
tsort-Found {items} {edges} {g} h b d =
    let (roots, started, l) = start_total b d in
    let (order, last, visited, l', no_roots) =
      visit_total b.closed (suc (length roots + length g.edges)) [] (work_of g roots) roots l refl
        (omega arith) in
    let h' = subst (λ x. is_empty x ≡ false) (sym b.same_items) h in
    let res = sort_from-result g roots order visited h' in
    record {
      order = order;
      last = last;
      loop = l';
      no_roots = no_roots;
      result =
          rw (h', started)
            (subst
              (λ x.
                sort_from g roots
                ≡ (if length x == length order then ok (reverse order) else err cyclic_graph_error))
              b.same_items res);
    }

-- A topological order: each node once, and nothing else, with the start of each edge before its
-- end.
pub record IsTopological (items : List ℕ) (edges : List Edge) (result : List ℕ) : Type 0 where
  pub distinct : IsDistinct result
  pub members : (c : ℕ) → elem c result ≡ elem c items
  pub parents_first : (p c : ℕ) → elem_edge (p, c) edges ≡ true → precedes p c result ≡ true

pub tsort-nil : (g : Graph) → g.items ≡ [] → tsort g ≡ ok []
unfolding tsort
tsort-nil g h = rw h

iff→eq : {a b : Bool} → (a ≡ true → b ≡ true) → (b ≡ true → a ≡ true) → a ≡ b
iff→eq {a} {b} f g = ground arith

passed :
    (items order : List ℕ) {result : List ℕ}
    → (if length items == length order then ok (reverse order) else err cyclic_graph_error)
      ≡ ok result
    → (length items ≡ length order) × (reverse order ≡ result)
passed items order h = elim (Bool-cases (length items == length order)) [
  | inl same ↦ ((==_iff _ _).0 same, ok-injective (rw same at h))
  | inr differs ↦ absurd (let h' = rw differs at h in cc)
]

-- The order that the loop finds is topological, if it is as long as the list of nodes.
order-IsTopological :
    {items : List ℕ} {edges : List Edge} (order : List ℕ) (last : Work)
    → IsDistinct items
    → ((f : Edge) → elem_edge f edges ≡ true → elem f.1 items ≡ true)
    → Loop items edges order last
    → length items ≡ length order
    → IsTopological items edges (reverse order)
order-IsTopological {items} {edges} order last d closed l same =
    let covers = distinct-covers order items l.inv.distinct_done l.inv.known_done (sym same) in
    record {
      distinct = IsDistinct-reverse order l.inv.distinct_done;
      members = λ c. elem-reverse c order ∙ iff→eq (l.inv.known_done c) (covers c);
      parents_first =
          λ p c h. precedes-reverse edges p c order l.ordered h (covers c (closed (p, c) h));
    }

-- Where `tsort` returns on a graph that `create_graph` built from distinct nodes, what it returns
-- holds each node once and no other, and the start of each edge stands before its end.
pub tsort-IsTopological :
    (items : List ℕ) (edges : List Edge) {g : Graph} {result : List ℕ}
    → IsDistinct items
    → create_graph items edges ≡ ok g
    → tsort g ≡ ok result
    → IsTopological items edges result
tsort-IsTopological [] edges {g} {result} d made h =
    let b = create_graph-Built [] edges made in
    let none_found : result ≡ [] = ok-injective (sym h ∙ tsort-nil g b.same_items) in
    record {
      distinct = rw none_found tt;
      members = λ c. rw none_found;
      parents_first = λ p c e. absurd (ground (arith, b.closed (p, c) e));
    }
tsort-IsTopological (x ∷ items) edges {g} {result} d made h =
    let b = create_graph-Built (x ∷ items) edges made in
    let f = tsort-Found {items = x ∷ items} refl b d in
    let (same, e) = passed (x ∷ items) f.order (sym f.result ∙ h) in
    subst (λ r. IsTopological (x ∷ items) edges r) e
      (order-IsTopological f.order f.last d b.closed f.loop same)

-- ===== src/Tsort/Complete.antt =====
-- `tsort` of blivet/tsort.py succeeds on every graph without a cycle.
use blivet.Prelude.{
  ℕ, zero, suc, ◌<◌, ◌≡◌, refl, ◌∙◌, true, ok, ◌>>=◌, subst, arith, List, [], ◌∷◌, length,
  if◌then◌else◌, ◌==◌, ==_iff, ==_refl, reverse, Bool-cases, inl, inr, pos, some, ◌≢◌, elem,
  IsDistinct,
}
use blivet.Tsort.Graph.{
  Edge, Graph, Work, Counts, create_graph, count_edges, zero_counts, no_counts, tsort, set_count,
  increment,
}
use blivet.Tsort.Invariant.{elem_edge, count_in}
use blivet.Tsort.Loop.{Loop}
use blivet.Tsort.Members.{distinct-length-le}
use blivet.Tsort.Start.{create_graph-Built, Based, zero_counts_lem}
use blivet.Tsort.Order.{tsort-Found, tsort-nil, IsTopological, tsort-IsTopological}

-- A rank that grows along every edge shows that there is no cycle.
abbrev pub IsRanked : (ℕ → ℕ) → List Edge → Type 0
IsRanked rank edges = (f : Edge) → elem_edge f edges ≡ true → rank f.0 < rank f.1

abbrev pub AreNodes : List ℕ → List Edge → Type 0
AreNodes items edges =
    (f : Edge) → elem_edge f edges ≡ true → (elem f.0 items ≡ true) × (elem f.1 items ≡ true)

edge_into :
    (n : ℕ) (edges : List Edge)
    → count_in n edges ≢ 0
    → (f : Edge) × (elem_edge f edges ≡ true) × (f.1 ≡ n)
edge_into n [] h = absurd (h refl)
edge_into n (x ∷ edges) h = elim (Bool-cases (x.1 == n)) [
  | inl into ↦ (x, ground (arith, ==_refl x.0, ==_refl x.1), ground arith)
  | inr past ↦ let (f, there, e) = edge_into n edges (rw past at h) in (f, ground (arith, there), e)
]

-- A loop that ended with no root left has every node in the order.
all_ordered :
    {items : List ℕ} {edges : List Edge} {order : List ℕ} {last : Work} (rank : ℕ → ℕ)
    → IsRanked rank edges
    → AreNodes items edges
    → Loop items edges order last
    → last.roots ≡ []
    → (k n : ℕ) → rank n < k
    → elem n items ≡ true
    → elem n order ≡ true
all_ordered rank ranked nodes l e zero n lt m = elim lt [ ]
all_ordered {order = order} {last = last} rank ranked nodes l e (suc k) n lt m =
    elim (Bool-cases (elem n order)) [
      | inl there ↦ there
      | inr missing ↦
          let busy : count_in n last.edges ≢ 0 =
            λ z. ground (arith, l.inv.ready n m z, e, missing) in
          let (f, left, into) = edge_into n last.edges busy in
          let lower : rank f.0 < rank n =
            subst (λ x. rank f.0 < rank x) into (ranked f (l.within f left)) in
          let earlier =
            all_ordered rank ranked nodes l e k f.0 (omega (arith, lower))
              (nodes f (l.within f left)).0 in
          absurd (ground (arith, earlier, l.left f left))
    ]

count_edges_total :
    (items : List ℕ) (edges : List Edge) (base : ℕ → ℕ) (m : Counts)
    → Based items base m
    → AreNodes items edges
    → (m' : Counts) × (count_edges edges m ≡ ok m')
unfolding count_edges
count_edges_total items [] base m b nodes = (m, refl)
count_edges_total items ((p, c) ∷ edges) base m b nodes =
    let found : m c ≡ some (pos (base c)) =
      ground (arith, b c, (nodes (p, c) (ground (arith, ==_refl p, ==_refl c))).1) in
    let inc : increment m c ≡ ok (set_count m c (pos (suc (base c)))) =
      unfold increment in rw (found, increment) in
    let (m', counted) =
      count_edges_total items edges (λ j. if j == c then suc (base c) else base j)
        (set_count m c (pos (suc (base c)))) (λ j. ground (arith, b j, b c, found, ==_iff j c))
        (λ f h. nodes f (ground (arith, h))) in
    (m', rw inc counted)

create_graph_total :
    (items : List ℕ) (edges : List Edge)
    → AreNodes items edges
    → (g : Graph) × (create_graph items edges ≡ ok g)
unfolding create_graph
create_graph_total items edges nodes =
    let (m, counted) =
      count_edges_total items edges (λ c. 0) (zero_counts items no_counts)
        (zero_counts_lem items no_counts) nodes in
    (record { items = items; edges = edges; incoming = m }, rw counted)

tsort_total :
    (items : List ℕ) (edges : List Edge) (rank : ℕ → ℕ) {g : Graph}
    → IsDistinct items
    → AreNodes items edges
    → IsRanked rank edges
    → create_graph items edges ≡ ok g
    → (result : List ℕ) × (tsort g ≡ ok result)
tsort_total [] edges rank {g} d nodes ranked made =
    ([], tsort-nil g (create_graph-Built [] edges made).same_items)
tsort_total (x ∷ items) edges rank {g} d nodes ranked made =
    let b = create_graph-Built (x ∷ items) edges made in
    let f = tsort-Found {items = x ∷ items} refl b d in
    let ordered = λ (n : ℕ) (m : elem n (x ∷ items) ≡ true).
      all_ordered rank ranked nodes f.loop f.no_roots (suc (rank n)) n (omega arith) m in
    let same : length (x ∷ items) ≡ length f.order = omega (
      arith,
      distinct-length-le (x ∷ items) f.order d ordered,
      distinct-length-le f.order (x ∷ items) f.loop.inv.distinct_done f.loop.inv.known_done,
    ) in
    (reverse f.order, f.result ∙ rw ((==_iff _ _).1 same))

-- On distinct nodes and edges between them, along which some rank grows, building the graph and
-- sorting it raises nothing, and the result is a topological order.
pub tsort-acyclic :
    (items : List ℕ) (edges : List Edge) (rank : ℕ → ℕ)
    → IsDistinct items
    → AreNodes items edges
    → IsRanked rank edges
    → (result : List ℕ) × ((create_graph items edges >>= tsort) ≡ ok result)
      × IsTopological items edges result
tsort-acyclic items edges rank d nodes ranked =
    let (g, made) = create_graph_total items edges nodes in
    let (result, sorted) = tsort_total items edges rank d nodes ranked made in
    (result, rw made sorted, tsort-IsTopological items edges d made sorted)

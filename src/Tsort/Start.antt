-- ===== src/Tsort/Start.antt =====
-- What `create_graph` of blivet/tsort.py builds, and the roots that `tsort` starts from.
use native.Mathlib.Nat.{add-zero}
use blivet.Prelude.{
  ℕ, suc, ◌+◌, ◌≡◌, refl, sym, ◌∙◌, ap, true, false, ◌||◌, ◌&&◌, ok, >>=-eq-ok, ok-injective, subst,
  arith, ℤ, pos, List, [], ◌∷◌, if◌then◌else◌, ◌==◌, ==_iff, ==_refl, inl, inr, none, some,
  Option-cases, elem, IsDistinct,
}
use blivet.Tsort.Graph.{
  Edge, Graph, Counts, is_zero, set_count, succ_ℤ, increment, zero_counts, count_edges, no_counts,
  create_graph, roots_of, work_of,
}
use blivet.Tsort.Invariant.{elem_edge, count_in, count_for}
use blivet.Tsort.Loop.{Loop}

pub zero_counts_lem :
    (items : List ℕ) (m : Counts) (c : ℕ)
    → zero_counts items m c ≡ (if elem c items then some (pos 0) else m c)
unfolding zero_counts
zero_counts_lem [] m c = refl
zero_counts_lem (x ∷ items) m c = ground (arith, zero_counts_lem items (set_count m x (pos 0)) c)

-- Each node has a count, which is `base`.
abbrev pub Based : List ℕ → (ℕ → ℕ) → Counts → Type 0
Based items base m = (c : ℕ) → m c ≡ (if elem c items then some (pos (base c)) else none)

abbrev Counted : List ℕ → List Edge → (ℕ → ℕ) → Counts → Type 0
Counted items edges base m =
    (c : ℕ) → m c ≡ (if elem c items then some (pos (count_in c edges + base c)) else none)

increment-eq-ok :
    (m : Counts) (c : ℕ) {m' : Counts}
    → increment m c ≡ ok m'
    → (n : ℤ) × (m c ≡ some n) × (m' ≡ set_count m c (succ_ℤ n))
unfolding increment
increment-eq-ok m c h = elim (Option-cases (m c)) [
  | inl missing ↦ absurd (let h' = rw (missing, increment) at h in cc)
  | inr (n, found) ↦ (n, found, ok-injective (sym (rw (found, increment) at h)))
]

count_edges-eq-ok :
    (p c : ℕ) (edges : List Edge) (m : Counts) {m' : Counts}
    → count_edges ((p, c) ∷ edges) m ≡ ok m'
    → (n : ℤ) × (m c ≡ some n) × (count_edges edges (set_count m c (succ_ℤ n)) ≡ ok m')
unfolding count_edges
count_edges-eq-ok p c edges m {m' = m'} h =
    let (m1, inc, rest) = >>=-eq-ok (increment m c) _ h in
    let (n, found, e) = increment-eq-ok m c inc in
    (n, found, subst (λ x. count_edges edges x ≡ ok m') e rest)

count_edges_lem :
    (items : List ℕ) (edges : List Edge) (base : ℕ → ℕ) (m : Counts) {m' : Counts}
    → Based items base m
    → count_edges edges m ≡ ok m'
    → Counted items edges base m' × ((f : Edge) → elem_edge f edges ≡ true → elem f.1 items ≡ true)
count_edges_lem items [] base m {m'} b h =
    let e : m ≡ m' = ok-injective (unfold count_edges in h) in
    (λ c. ground (arith, ap (λ (x : Counts). x c) e, b c), λ f e'. cc)
count_edges_lem items ((p, c) ∷ edges) base m b h =
    let (n, found, rest) = count_edges-eq-ok p c edges m h in
    let base' = λ (j : ℕ). if j == c then suc (base c) else base j in
    let b' : Based items base' (set_count m c (succ_ℤ n)) =
      λ j. ground (arith, b j, b c, found, ==_iff j c) in
    let (counts, closed) = count_edges_lem items edges base' (set_count m c (succ_ℤ n)) b' rest in
    (
      λ j. ground (arith, counts j, ==_iff c j, ==_iff j c),
      λ f e. ground (arith, closed f, b c, found, ==_iff c f.1),
    )

-- A graph that was built: its nodes and edges as they were given, each node's count that of the
-- edges that end at it, and every edge ending at a node.
pub record Built (items : List ℕ) (edges : List Edge) (g : Graph) : Type 0 where
  pub same_items : g.items ≡ items
  pub same_edges : g.edges ≡ edges
  pub counts : (c : ℕ) → g.incoming c ≡ count_for items edges c
  pub closed : (f : Edge) → elem_edge f edges ≡ true → elem f.1 items ≡ true

pub create_graph-Built :
    (items : List ℕ) (edges : List Edge) {g : Graph}
    → create_graph items edges ≡ ok g
    → Built items edges g
unfolding create_graph
create_graph-Built items edges h =
    let (m, counted, e) = >>=-eq-ok (count_edges edges (zero_counts items no_counts)) _ h in
    let same = ok-injective (sym e) in
    let start : Based items (λ c. 0) (zero_counts items no_counts) =
      λ c. zero_counts_lem items no_counts c in
    let (counts, closed) = count_edges_lem items edges (λ c. 0) _ start counted in
    record {
      same_items = ap (λ (x : Graph). x.items) same;
      same_edges = ap (λ (x : Graph). x.edges) same;
      counts = λ c. ap (λ (x : Graph). x.incoming c) same ∙ counts c ∙ rw add-zero;
      closed = closed;
    }

-- The roots are the nodes to which no edge leads, each once.
record Roots (items : List ℕ) (edges : List Edge) (xs acc roots : List ℕ) : Type 0 where
  distinct : IsDistinct roots
  exact : (c : ℕ) → elem c roots ≡ (elem c acc || (elem c xs && count_in c edges == 0))

module _ {items : List ℕ} {edges : List Edge} (m : Counts)
    (counts : (c : ℕ) → m c ≡ count_for items edges c) where
  roots_of_total :
      (xs acc : List ℕ)
      → ((c : ℕ) → elem c xs ≡ true → elem c items ≡ true)
      → IsDistinct xs
      → IsDistinct acc
      → ((c : ℕ) → elem c xs ≡ true → elem c acc ≡ false)
      → (roots : List ℕ) × (roots_of m xs acc ≡ ok roots) × Roots items edges xs acc roots
  unfolding roots_of
  roots_of_total [] acc known d da apart =
      (acc, refl, record { distinct = da; exact = λ c. ground arith })
  roots_of_total (x ∷ xs) acc known d da apart =
      let found : m x ≡ some (pos (count_in x edges)) =
        ground (arith, counts x, known x, ==_refl x) in
      let acc' = if is_zero (pos (count_in x edges)) then x ∷ acc else acc in
      let (roots, e, r) =
        roots_of_total xs acc' (λ c h. known c (ground arith)) d.1
          (ground (arith, apart x, ==_refl x)) (λ c h. ground (arith, apart c, d.0, ==_iff c x)) in
      (
        roots,
        rw (found, roots_of) e,
        record { distinct = r.distinct; exact = λ c. ground (arith, r.exact c, ==_iff c x) },
      )

-- Where `tsort` starts, the invariant of its loop holds.
pub start_total :
    {items : List ℕ} {edges : List Edge} {g : Graph}
    → Built items edges g
    → IsDistinct items
    → (roots : List ℕ) × (roots_of g.incoming g.items [] ≡ ok roots)
      × Loop items edges [] (work_of g roots)
start_total {items} {edges} {g} b d =
    let (roots, e, r) = roots_of_total g.incoming b.counts items [] (λ c h. h) d tt (λ c h. refl) in
    (
      roots,
      rw b.same_items e,
      record {
        inv = record {
          counts = λ c. rw b.same_edges (b.counts c);
          parts = λ p c h. inr (rw b.same_edges h);
          free_root = λ c h. rw b.same_edges (ground (arith, r.exact c));
          free_done = λ c h. cc;
          ready = λ c h z. inl (ground (arith, r.exact c, rw b.same_edges at z));
          distinct_roots = r.distinct;
          distinct_done = tt;
          apart = λ c h. refl;
          known_root = λ c h. ground (arith, r.exact c);
          known_done = λ c h. cc;
        };
        left = λ f h. refl;
        within = λ f h. rw b.same_edges at h;
        ordered = tt;
      },
    )

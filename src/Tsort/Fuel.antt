-- ===== src/Tsort/Fuel.antt =====
-- The loops of blivet/tsort.py end: the bound of the model is never reached, on any graph.
use blivet.Prelude.{
  ℕ, zero, suc, ◌+◌, ◌<◌, ◌≤◌, ◌≡◌, ◌≢◌, ok, err, >>=-eq-ok, out_of_fuel, arith, List, [], ◌∷◌,
  length, keep, if◌then◌else◌, Option-cases, inl, inr, Bool-cases, some, ℤ, ok-injective, sym,
  Result-cases, err-injective, ◌∙◌, ap, elem,
}
use blivet.Tsort.Graph.{
  Edge, Graph, Work, same_edge, is_zero, pred_ℤ, set_count, remove_edge, drop_edge, drop_edges,
  starts_at, pop, visit, roots_of, work_of, sort_from, tsort, Counts,
}

remove_edge-length :
    (e : Edge) (xs : List Edge) {ys : List Edge}
    → remove_edge e xs ≡ ok ys
    → length xs ≡ suc (length ys)
unfolding remove_edge
remove_edge-length e [] h = cc
remove_edge-length e (x ∷ xs) h = elim (Bool-cases (same_edge x e)) [
  | inl same ↦ ground arith
  | inr differs ↦
      let (zs, removed, e') = >>=-eq-ok (remove_edge e xs) _ (rw differs at h) in
      ground (arith, remove_edge-length e xs removed)
]

-- A round of the `for` loop that returns, taken apart.
pub drop_edge-eq-ok :
    (e : Edge) (w : Work) {w' : Work}
    → drop_edge e w ≡ ok w'
    → (n : ℤ) × (edges : List Edge) × (w.incoming e.1 ≡ some n)
      × (remove_edge e w.edges ≡ ok edges)
      × (w' ≡ record {
        roots = if is_zero (pred_ℤ n) then e.1 ∷ w.roots else w.roots;
        edges = edges;
        incoming = set_count w.incoming e.1 (pred_ℤ n);
      })
unfolding drop_edge
drop_edge-eq-ok e w h = elim (Option-cases (w.incoming e.1)) [
  | inl missing ↦ absurd (ground (arith, missing))
  | inr (n, found) ↦
      let (edges, removed, last) =
        >>=-eq-ok (remove_edge e w.edges) _ (rw (found, drop_edge) at h) in
      (n, edges, found, removed, ok-injective (sym last))
]

abbrev pub measure : Work → ℕ
measure w = length w.roots + length w.edges

drop_edge-measure :
    (e : Edge) (w : Work) {w' : Work} → drop_edge e w ≡ ok w' → measure w' ≤ measure w
drop_edge-measure e w h =
    let (n, edges, found, removed, last) = drop_edge-eq-ok e w h in
    rw last (ground (arith, remove_edge-length e w.edges removed))

pub drop_edges-measure :
    (es : List Edge) (w : Work) {w' : Work} → drop_edges es w ≡ ok w' → measure w' ≤ measure w
unfolding drop_edges
drop_edges-measure [] w h = ground arith
drop_edges-measure (e ∷ es) w h =
    let (w1, dropped, rest) = >>=-eq-ok (drop_edge e w) _ h in
    omega (arith, drop_edge-measure e w dropped, drop_edges-measure es w1 rest)

remove_edge-ne-out_of_fuel : (e : Edge) (xs : List Edge) → remove_edge e xs ≢ err out_of_fuel
unfolding remove_edge
remove_edge-ne-out_of_fuel e [] = ground arith
remove_edge-ne-out_of_fuel e (x ∷ xs) = ground (arith, remove_edge-ne-out_of_fuel e xs)

drop_edges-ne-out_of_fuel : (es : List Edge) (w : Work) → drop_edges es w ≢ err out_of_fuel
unfolding drop_edges drop_edge
drop_edges-ne-out_of_fuel [] w h = cc
drop_edges-ne-out_of_fuel (e ∷ es) w h = elim (Result-cases (drop_edge e w)) [
  | inl (w', done) ↦ drop_edges-ne-out_of_fuel es w' (rw (done, drop_edges) at h)
  | inr (x, failed) ↦ ground (arith, remove_edge-ne-out_of_fuel e w.edges)
]

roots_of-ne-out_of_fuel :
    (m : Counts) (items roots : List ℕ) → roots_of m items roots ≢ err out_of_fuel
unfolding roots_of
roots_of-ne-out_of_fuel m [] roots h = cc
roots_of-ne-out_of_fuel m (n ∷ items) roots h = elim (Option-cases (m n)) [
  | inl missing ↦ ground arith
  | inr (k, found) ↦
      roots_of-ne-out_of_fuel m items (if is_zero k then n ∷ roots else roots)
        (rw (found, roots_of) at h)
]

visit-ne-out_of_fuel :
    (fuel : ℕ) (visited order : List ℕ) (w : Work) (roots : List ℕ)
    → length roots + length w.edges < fuel
    → visit fuel visited order w roots ≢ err out_of_fuel
unfolding visit
visit-ne-out_of_fuel zero visited order w [] h e = cc
visit-ne-out_of_fuel (suc fuel) visited order w [] h e = cc
visit-ne-out_of_fuel zero visited order w (root ∷ rest) h e = elim h [ ]
visit-ne-out_of_fuel (suc fuel) visited order w (root ∷ rest) h e =
    elim (Bool-cases (elem root visited)) [
      | inl seen ↦ ground (arith, seen)
      | inr fresh ↦
          let edges = keep (starts_at root) w.edges in
          let e' = rw (fresh, visit) at e in
          elim (Result-cases (drop_edges edges (pop rest w))) [
            | inl (w', done) ↦
                visit-ne-out_of_fuel fuel (root ∷ visited) (root ∷ order) w' w'.roots
                  (omega (arith, drop_edges-measure edges (pop rest w) done)) (rw done at e')
            | inr (x, failed) ↦
                drop_edges-ne-out_of_fuel edges (pop rest w)
                  (failed ∙ ap err (err-injective (rw failed at e')))
          ]
    ]

sort_from-ne-out_of_fuel : (g : Graph) (roots : List ℕ) → sort_from g roots ≢ err out_of_fuel
unfolding sort_from
sort_from-ne-out_of_fuel g roots e =
    let fuel = suc (length roots + length g.edges) in
    elim (Result-cases (visit fuel [] [] (work_of g roots) roots)) [
      | inl (found, done) ↦ ground (arith, done)
      | inr (x, failed) ↦
          ground
            (arith, failed, visit-ne-out_of_fuel fuel [] [] (work_of g roots) roots (omega arith))
    ]

-- The sort of any graph ends: the rounds of its loop never reach the bound of the model.
pub tsort-ne-out_of_fuel : (g : Graph) → tsort g ≢ err out_of_fuel
unfolding tsort
tsort-ne-out_of_fuel g e = elim (Result-cases (roots_of g.incoming g.items [])) [
  | inl (roots, found) ↦ ground (arith, found, sort_from-ne-out_of_fuel g roots)
  | inr (x, failed) ↦ ground (arith, failed, roots_of-ne-out_of_fuel g.incoming g.items [])
]

-- ===== src/Tsort/Graph.antt =====
-- `create_graph` and `tsort` of blivet/tsort.py.
use blivet.Prelude.{
  ℕ, zero, suc, ◌+◌, Bool, true, false, ◌&&◌, not, Result, ok, err, ◌>>=◌, ◌>>◌, raise_if,
  cyclic_graph_error, key_error, value_error, out_of_fuel, ℤ, pos, negsuc, List, [], ◌∷◌, reverse,
  length, keep, if◌then◌else◌, ◌==◌, Option, none, some, elem,
}

-- A dict from nodes to counts.
abbrev pub Counts : Type 0
Counts = ℕ → Option ℤ

abbrev pub set_count : Counts → ℕ → ℤ → Counts
set_count m k v j = if j == k then some v else m j

-- `n + 1` and `n - 1` on integers.
abbrev pub succ_ℤ : ℤ → ℤ
succ_ℤ (pos n) = pos (suc n)
succ_ℤ (negsuc zero) = pos 0
succ_ℤ (negsuc (suc n)) = negsuc n

abbrev pub pred_ℤ : ℤ → ℤ
pred_ℤ (pos zero) = negsuc 0
pred_ℤ (pos (suc n)) = pos n
pred_ℤ (negsuc n) = negsuc (suc n)

abbrev pub is_zero : ℤ → Bool
is_zero (pos zero) = true
is_zero _ = false

-- (parent, child)
abbrev pub Edge : Type 0
Edge = ℕ × ℕ

pub record Graph : Type 0 where
  pub items : List ℕ
  pub edges : List Edge
  pub incoming : Counts

abbrev pub same_edge : Edge → Edge → Bool
same_edge a b = a.0 == b.0 && a.1 == b.1

abbrev pub no_counts : Counts
no_counts k = none

-- `for item in items: graph['incoming'][item] = 0`
unfoldable pub zero_counts : List ℕ → Counts → Counts
zero_counts [] m = m
zero_counts (item ∷ items) m = zero_counts items (set_count m item (pos 0))

-- `graph['incoming'][child] += 1`
unfoldable pub increment : Counts → ℕ → Result Counts
increment m child = elim (m child) [
  | none ↦ err key_error
  | some n ↦ ok (set_count m child (succ_ℤ n))
]

unfoldable pub count_edges : List Edge → Counts → Result Counts
unfolding increment
count_edges [] m = ok m
count_edges ((parent, child) ∷ edges) m = do m' ← increment m child; count_edges edges m'

unfoldable pub create_graph : List ℕ → List Edge → Result Graph
create_graph items edges = do
  m ← count_edges edges (zero_counts items no_counts)
  ok (record { items = items; edges = edges; incoming = m })

-- `[n for n in graph['items'] if graph['incoming'][n] == 0]`, the last one first.
unfoldable pub roots_of : Counts → List ℕ → List ℕ → Result (List ℕ)
roots_of m [] roots = ok roots
roots_of m (n ∷ items) roots = elim (m n) [
  | none ↦ err key_error
  | some k ↦ roots_of m items (if is_zero k then n ∷ roots else roots)
]

-- `list.remove`: the first that is equal.
unfoldable pub remove_edge : Edge → List Edge → Result (List Edge)
remove_edge e [] = err value_error
remove_edge e (x ∷ xs) =
    let rest = remove_edge e xs in if same_edge x e then ok xs else (rest >>= λ ys. ok (x ∷ ys))

-- What the loops change. `roots` is a stack, its top first.
pub record Work : Type 0 where
  pub roots : List ℕ
  pub edges : List Edge
  pub incoming : Counts

-- One round of the `for` loop: an edge from the root is dropped.
unfoldable pub drop_edge : Edge → Work → Result Work
drop_edge e w = elim (w.incoming e.1) [
  | none ↦ err key_error
  | some n ↦ do
    edges ← remove_edge e w.edges
    ok (record {
      roots = if is_zero (pred_ℤ n) then e.1 ∷ w.roots else w.roots;
      edges = edges;
      incoming = set_count w.incoming e.1 (pred_ℤ n);
    })
]

-- The `for` loop over the edges from the root, as they were before it.
unfoldable pub drop_edges : List Edge → Work → Result Work
drop_edges [] w = ok w
drop_edges (e ∷ es) w = do w' ← drop_edge e w; drop_edges es w'

abbrev pub starts_at : ℕ → Edge → Bool
starts_at root e = e.0 == root

abbrev pub pop : List ℕ → Work → Work
pop rest w = record w { roots = rest }

-- The `while` loop. `visited` and `order` hold the latest first. One unit of fuel is a round.
unfoldable pub visit : ℕ → List ℕ → List ℕ → Work → List ℕ → Result (List ℕ × List ℕ)
visit fuel visited order w [] = ok (visited, order)
visit zero visited order w (root ∷ rest) = err out_of_fuel
visit (suc fuel) visited order w (root ∷ rest) = elim (elem root visited) [
  | true ↦ err cyclic_graph_error
  | false ↦ do
    w' ← drop_edges (keep (starts_at root) w.edges) (pop rest w)
    visit fuel (root ∷ visited) (root ∷ order) w' w'.roots
]

abbrev pub is_empty {ℓ} : {A : Type ℓ} → List A → Bool
is_empty [] = true
is_empty (x ∷ xs) = false

abbrev pub work_of : Graph → List ℕ → Work
work_of g roots = record { roots = roots; edges = g.edges; incoming = g.incoming }

-- The check after the loop that every node was visited.
abbrev pub check_visited : Graph → List ℕ × List ℕ → Result (List ℕ)
check_visited g (visited, order) = do
  raise_if (not (length g.items == length visited)) cyclic_graph_error
  ok (reverse order)

-- From the roots on. Every round takes a root off the stack, and puts one on only as it drops an
-- edge, which bounds the rounds.
unfoldable pub sort_from : Graph → List ℕ → Result (List ℕ)
sort_from g roots = do
  raise_if (is_empty roots) cyclic_graph_error
  found ← visit (suc (length roots + length g.edges)) [] [] (work_of g roots) roots
  check_visited g found

unfoldable pub tsort : Graph → Result (List ℕ)
unfolding sort_from
tsort g =
    if is_empty g.items then ok [] else do roots ← roots_of g.incoming g.items []; sort_from g roots

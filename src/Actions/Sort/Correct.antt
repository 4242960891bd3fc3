-- ===== src/Actions/Sort/Correct.antt =====
-- What `sort` of blivet/actionlist.py promises: the same actions, each after those that it requires.
use blivet.Prelude.{
  ℕ, ◌<◌, ◌≡◌, ◌≢◌, refl, sym, ◌∙◌, ap, true, ok, >>=-eq-ok, ok-injective, subst, arith, List, [],
  ◌∷◌, length, get_elem?, ==_iff, Option, none, some, elem,
}
use blivet.Actions.Model.{Action, Tree}
use blivet.Actions.Requires.{requires}
use blivet.Actions.List.{is_listed, index, edges_from, range_from, pick, sort, sort_nonempty}
use blivet.Actions.Prune.{AreDistinct, Listed}
use blivet.Actions.Sort.{
  index-lt, index-get, elem-range_from, range_from-elem, range_from-IsDistinct, edges_from-elem,
  elem-edges_from,
}
use blivet.Actions.Sort.Schedule.{
  comes_before, pick-is_listed, pick-comes_before, pick-within, pick-AreDistinct, pick_total,
}
use blivet.Tsort.{Edge, create_graph, tsort}
use blivet.Tsort.Order.{IsTopological, tsort-IsTopological}
use blivet.Tsort.Complete.{AreNodes, IsRanked, tsort-acyclic}

-- The actions of the list, each once, and each after the others that it requires.
pub record IsSchedule (tree : Tree) (actions sorted : List Action) : Type 0 where
  pub distinct : AreDistinct sorted
  pub within : (x : Action) → Listed x sorted → Listed x actions
  pub covers : (x : Action) → Listed x actions → is_listed x sorted ≡ true
  pub required_first :
      (a b : Action)
      → Listed a actions
      → Listed b actions
      → a.id ≢ b.id
      → requires tree b a ≡ true
      → comes_before a b sorted ≡ true

abbrev rank_of : (Action → ℕ) → Option Action → ℕ
rank_of rank none = 0
rank_of rank (some a) = rank a

module _ (tree : Tree) (actions : List Action) (d : AreDistinct actions) where
  abbrev nodes : List ℕ
  nodes = range_from 0 (length actions)

  abbrev edges : List Edge
  edges = edges_from tree actions actions

  node : (x : Action) → Listed x actions → elem (index x actions) nodes ≡ true
  node x l =
      range_from-elem (index x actions) 0 (length actions) (omega arith)
        (omega (arith, index-lt x actions l))

  -- A topological order of the positions picks a schedule.
  pick-IsSchedule :
      (order : List ℕ) (sorted : List Action)
      → IsTopological nodes edges order
      → pick actions order ≡ ok sorted
      → IsSchedule tree actions sorted
  pick-IsSchedule order sorted t h = record {
    distinct = pick-AreDistinct actions d order sorted t.distinct h;
    within = λ x l. pick-within actions d x order sorted h l;
    covers =
        λ x l. pick-is_listed actions d x order sorted l h ∙ t.members (index x actions) ∙ node x l;
    required_first = λ a b la lb ne r.
        pick-comes_before actions d a b order sorted la lb h
        ∙ t.parents_first (index a actions) (index b actions) (
            edges_from-elem tree actions a b actions la lb
              (ground (arith, r, ne, ==_iff b.id a.id)));
  }

  sort_nonempty-IsSchedule :
      {sorted : List Action}
      → sort_nonempty tree actions ≡ ok sorted
      → IsSchedule tree actions sorted
  unfolding sort_nonempty
  sort_nonempty-IsSchedule {sorted} h =
      let (graph, made, rest) = >>=-eq-ok (create_graph nodes edges) _ h in
      let (order, ordered, picked) = >>=-eq-ok (tsort graph) _ rest in
      pick-IsSchedule order sorted
        (tsort-IsTopological nodes edges (range_from-IsDistinct 0 (length actions)) made ordered)
        picked

  edges_known : AreNodes nodes edges
  edges_known f h =
      let r = elem-edges_from tree actions f actions h in
      (rw r.from (node r.first r.at_first), rw r.to (node r.second r.at_second))

  -- A rank of the actions is a rank of their positions.
  abbrev rank_at : (Action → ℕ) → ℕ → ℕ
  rank_at rank i = rank_of rank (get_elem? actions i)

  rank_at-index :
      (rank : Action → ℕ) (x : Action) → Listed x actions → rank_at rank (index x actions) ≡ rank x
  rank_at-index rank x l = ap (rank_of rank) (index-get x actions d l)

  edges-IsRanked :
      (rank : Action → ℕ)
      → ((a b : Action)
          → Listed a actions
          → Listed b actions
          → requires tree b a ≡ true
          → rank a < rank b)
      → IsRanked (rank_at rank) edges
  edges-IsRanked rank grows f h =
      let r = elem-edges_from tree actions f actions h in
      let low : rank_at rank f.0 ≡ rank r.first =
        ap (rank_at rank) r.from ∙ rank_at-index rank r.first r.at_first in
      let high : rank_at rank f.1 ≡ rank r.second =
        ap (rank_at rank) r.to ∙ rank_at-index rank r.second r.at_second in
      rw (low, high) (grows r.first r.second r.at_first r.at_second r.required)

  sort_nonempty_total :
      (rank : Action → ℕ)
      → ((a b : Action)
          → Listed a actions
          → Listed b actions
          → requires tree b a ≡ true
          → rank a < rank b)
      → (sorted : List Action) × (sort_nonempty tree actions ≡ ok sorted)
  unfolding sort_nonempty
  sort_nonempty_total rank grows =
      let (order, ordered, t) =
        tsort-acyclic nodes edges (rank_at rank) (range_from-IsDistinct 0 (length actions))
          edges_known (edges-IsRanked rank grows) in
      let (graph, made, ordered') = >>=-eq-ok (create_graph nodes edges) _ ordered in
      let (picked, e) =
        pick_total actions d order
          (λ i h. omega (arith, elem-range_from i 0 (length actions) (sym (t.members i) ∙ h))) in
      (picked, rw (made, ordered') e)

-- Where `sort` returns, on actions with distinct ids, it has the same actions, each once and after
-- all others that it requires.
pub sort-IsSchedule :
    (tree : Tree) (actions : List Action) {sorted : List Action}
    → AreDistinct actions
    → sort tree actions ≡ ok sorted
    → IsSchedule tree actions sorted
unfolding sort
sort-IsSchedule tree [] {sorted} d h =
    subst (λ s. IsSchedule tree [] s) (ok-injective h)
      (record {
        distinct = tt;
        within = λ x l. l;
        covers = λ x l. elim l [ ];
        required_first = λ a b la. elim la [ ];
      })
sort-IsSchedule tree (a ∷ actions) d h = sort_nonempty-IsSchedule tree (a ∷ actions) d h

-- Where some rank of the actions grows from each action to those that require it, `sort` of
-- actions with distinct ids raises nothing, and gives the same actions, each once and after all
-- others that it requires.
pub sort_total :
    (tree : Tree) (actions : List Action) (rank : Action → ℕ)
    → AreDistinct actions
    → ((a b : Action)
        → Listed a actions
        → Listed b actions
        → requires tree b a ≡ true
        → rank a < rank b)
    → (sorted : List Action) × (sort tree actions ≡ ok sorted) × IsSchedule tree actions sorted
sort_total tree [] rank d grows =
    ([], unfold sort in refl, sort-IsSchedule tree [] d (unfold sort in refl))
sort_total tree (a ∷ actions) rank d grows =
    let (sorted, e) = sort_nonempty_total tree (a ∷ actions) d rank grows in
    (sorted, unfold sort in e, sort_nonempty-IsSchedule tree (a ∷ actions) d e)

-- ===== src/Actions/List.antt =====
-- `ActionList` of blivet/actionlist.py: `add`, `remove`, `prune` and `sort`. The hooks that the list
-- is created with, and an action's own `apply` and `cancel`, are parameters that may raise.
use blivet.Prelude.{
  ℕ, zero, suc, Bool, false, ◌&&◌, ◌||◌, not, Result, ok, err, ◌>>=◌, ◌>>◌, value_error,
  index_error, none, some, List, [], ◌∷◌, ◌++◌, reverse, length, keep, map, get_elem?,
  if◌then◌else◌, ◌==◌,
}
use blivet.Actions.Model.{Action, Tree}
use blivet.Actions.Requires.{requires}
use blivet.Actions.Obsoletes.{obsoletes}
use blivet.Tsort.{Edge, create_graph, tsort}

-- `action in actions`
abbrev pub is_listed : Action → List Action → Bool
is_listed a [] = false
is_listed a (b ∷ bs) = a.id == b.id || is_listed a bs

-- `list.remove`
unfoldable pub remove_action : Action → List Action → Result (List Action)
remove_action a [] = err value_error
remove_action a (b ∷ bs) =
    let rest = remove_action a bs in if b.id == a.id then ok bs else (rest >>= λ cs. ok (b ∷ cs))

-- What the device tree does to a device as an action is added or removed.
pub record Hooks : Type 0 where
  pub add_func : Action → Result (Unit {0})
  pub apply : Action → Result (Unit {0})
  pub remove_func : Action → Result (Unit {0})
  pub cancel : Action → Result (Unit {0})

-- The action is applied before it is listed.
unfoldable pub add : Hooks → Action → List Action → Result (List Action)
add hooks a actions = do hooks.add_func a; hooks.apply a; ok (actions ++ a ∷ [])

unfoldable pub remove : Hooks → Action → List Action → Result (List Action)
unfolding remove_action
remove hooks a actions = do hooks.remove_func a; hooks.cancel a; remove_action a actions

-- `prune`, for one obsolete action: it goes, and so does the action itself if it is obsolete in turn
-- and still there.
unfoldable pub drop_obsolete : Action → Action → List Action → Result (List Action)
drop_obsolete a o actions =
    if obsoletes a o
    then (do
      left ← remove_action o actions
      if obsoletes o a && is_listed a left then remove_action a left else ok left)
    else ok actions

-- The inner loop, over the list as it was.
unfoldable pub prune_by : Action → List Action → List Action → Result (List Action)
unfolding drop_obsolete
prune_by a [] actions = ok actions
prune_by a (o ∷ os) actions = do actions' ← drop_obsolete a o actions; prune_by a os actions'

-- The outer loop; an action that is gone already is passed over.
unfoldable pub prune_all : List Action → List Action → Result (List Action)
unfolding prune_by
prune_all [] actions = ok actions
prune_all (a ∷ later) actions = do
  actions' ← if is_listed a actions then prune_by a actions actions else ok actions
  prune_all later actions'

unfoldable pub prune : List Action → Result (List Action)
unfolding prune_all
prune actions = prune_all (reverse actions) actions

-- `list.index`
abbrev pub index : Action → List Action → ℕ
index a [] = 0
index a (b ∷ bs) = if b.id == a.id then 0 else suc (index a bs)

-- The actions that must come after an action.
abbrev pub children : Tree → Action → List Action → List Action
children tree a actions = keep (λ b. not (b.id == a.id) && requires tree b a) actions

abbrev pub edges_from : Tree → List Action → List Action → List Edge
edges_from tree actions [] = []
edges_from tree actions (a ∷ rest) =
    map (λ b. (index a actions, index b actions)) (children tree a actions)
    ++ edges_from tree actions rest

-- `list(range(n))`
abbrev pub range_from : ℕ → ℕ → List ℕ
range_from start zero = []
range_from start (suc n) = start ∷ range_from (suc start) n

-- `actions[idx]` for each index of an order.
abbrev pub pick : List Action → List ℕ → Result (List Action)
pick actions [] = ok []
pick actions (i ∷ order) = do
  rest ← pick actions order
  elim (get_elem? actions i) [ none ↦ err index_error | some a ↦ ok (a ∷ rest) ]

unfoldable pub sort_nonempty : Tree → List Action → Result (List Action)
sort_nonempty tree actions = do
  graph ← create_graph (range_from 0 (length actions)) (edges_from tree actions actions)
  order ← tsort graph
  pick actions order

unfoldable pub sort : Tree → List Action → Result (List Action)
unfolding sort_nonempty
sort tree [] = ok []
sort tree (a ∷ actions) = sort_nonempty tree (a ∷ actions)

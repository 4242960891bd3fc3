-- ===== src/Actions/Sort.antt =====
-- `sort` of blivet/actionlist.py: the graph that it builds of the positions of the actions, and the
-- list that it picks in the order found.
pub mod Schedule
pub mod Correct
use blivet.Prelude.{
  ℕ, zero, suc, ◌+◌, ◌<◌, ◌≤◌, ◌≡◌, ◌≢◌, refl, sym, ◌∙◌, ap, Bool, true, false, ◌&&◌, ◌||◌, not,
  Result, ok, err, ◌>>=◌, >>=-eq-ok, ok-injective, subst, arith, List, [], ◌∷◌, ◌++◌, map, keep,
  length, get_elem?, if◌then◌else◌, ◌==◌, ==_iff, ==_refl, Bool-cases, inl, inr, ◌⊎◌, Option, none,
  some, Option-cases, elem, IsDistinct,
}
use blivet.Actions.Model.{Action, Tree}
use blivet.Actions.Requires.{requires}
use blivet.Actions.List.{is_listed, index, children, edges_from, range_from, pick}
use blivet.Actions.Prune.{AreDistinct, Listed, Listed-is_listed, is_listed_same_id, same_id}
use blivet.Tsort.{Edge}
use blivet.Tsort.Invariant.{elem_edge}
use blivet.Tsort.Members.{precedes}

-- Positions and actions.
get-Listed :
    (x : Action) (actions : List Action) (i : ℕ) → get_elem? actions i ≡ some x → Listed x actions
get-Listed x [] i h = cc
get-Listed x (a ∷ actions) zero h = inl (ground arith)
get-Listed x (a ∷ actions) (suc i) h = inr (get-Listed x actions i h)

get-index :
    (x : Action) (actions : List Action) (i : ℕ)
    → AreDistinct actions
    → get_elem? actions i ≡ some x
    → index x actions ≡ i
get-index x [] i d h = cc
get-index x (a ∷ actions) zero d h = ground (arith, ==_refl a.id)
get-index x (a ∷ actions) (suc i) d h = ground (
  arith,
  get-index x actions i d.1 h,
  get-Listed x actions i h,
  is_listed_same_id x a actions,
  ==_iff a.id x.id,
)

index-get :
    (x : Action) (actions : List Action)
    → AreDistinct actions
    → Listed x actions
    → get_elem? actions (index x actions) ≡ some x
index-get x [] d l = elim l [ ]
index-get x (a ∷ actions) d (inl e) = ground (arith, e, ==_refl a.id)
index-get x (a ∷ actions) d (inr l) = elim (Bool-cases (a.id == x.id)) [
  | inl same ↦
      absurd (ground (arith, d.0, is_listed_same_id x a actions (sym ((==_iff _ _).0 same)) l))
  | inr other ↦ rw other (index-get x actions d.1 l)
]

index-lt :
    (x : Action) (actions : List Action) → Listed x actions → index x actions < length actions
index-lt x [] l = elim l [ ]
index-lt x (a ∷ actions) (inl e) = ground (arith, e, ==_refl a.id)
index-lt x (a ∷ actions) (inr l) = ground (arith, index-lt x actions l)

-- The positions are the nodes of the graph.
elem-range_from :
    (c start n : ℕ) → elem c (range_from start n) ≡ true → (start ≤ c) × (c < start + n)
elem-range_from c start zero h = cc
elem-range_from c start (suc n) h = ground (arith, elem-range_from c (suc start) n)

range_from-elem : (c start n : ℕ) → start ≤ c → c < start + n → elem c (range_from start n) ≡ true
range_from-elem c start zero le lt = absurd (omega arith)
range_from-elem c start (suc n) le lt = ground (arith, range_from-elem c (suc start) n)

range_from-IsDistinct : (start n : ℕ) → IsDistinct (range_from start n)
range_from-IsDistinct start zero = tt
range_from-IsDistinct start (suc n) = (
  elim (Bool-cases (elem start (range_from (suc start) n))) [
    | inl there ↦ absurd (omega (arith, elem-range_from start (suc start) n there))
    | inr absent ↦ absent
  ],
  range_from-IsDistinct (suc start) n,
)

-- The edges are the requirements.
elem_edge-append :
    (f : Edge) (xs ys : List Edge) → elem_edge f (xs ++ ys) ≡ (elem_edge f xs || elem_edge f ys)
elem_edge-append f [] ys = refl
elem_edge-append f (x ∷ xs) ys = ground (arith, elem_edge-append f xs ys)

module _ (tree : Tree) (actions : List Action) where
  abbrev needs : Action → Action → Bool
  needs a b = not (b.id == a.id) && requires tree b a

  abbrev edges_of : Action → List Action → List Edge
  edges_of a xs = map (λ b. (index a actions, index b actions)) xs

  edges_of-elem :
      (a b : Action) (xs : List Action)
      → Listed b xs
      → needs a b ≡ true
      → elem_edge (index a actions, index b actions) (edges_of a (keep (needs a) xs)) ≡ true
  edges_of-elem a b [] l h = elim l [ ]
  edges_of-elem a b (x ∷ xs) (inl e) h =
      rw (subst (λ y. needs a y ≡ true) e h)
        (ground (arith, e, ==_refl (index a actions), ==_refl (index b actions)))
  edges_of-elem a b (x ∷ xs) (inr l) h = elim (Bool-cases (needs a x)) [
    | inl t ↦ rw t (ground (arith, edges_of-elem a b xs l h))
    | inr f ↦ rw f (edges_of-elem a b xs l h)
  ]

  edges_from-elem :
      (a b : Action) (rest : List Action)
      → Listed a rest
      → Listed b actions
      → needs a b ≡ true
      → elem_edge (index a actions, index b actions) (edges_from tree actions rest) ≡ true
  edges_from-elem a b [] la lb h = elim la [ ]
  edges_from-elem a b (x ∷ rest) (inl e) lb h =
      let here = edges_of-elem x b actions lb (subst (λ y. needs y b ≡ true) e h) in
      rw elem_edge-append (
        ground (
          arith,
          subst
              (λ y.
                elem_edge (index y actions, index b actions) (edges_of x (keep (needs x) actions))
                ≡ true)
              (sym e) here,
        ))
  edges_from-elem a b (x ∷ rest) (inr l) lb h =
      rw elem_edge-append (ground (arith, edges_from-elem a b rest l lb h))

  -- An edge comes from a requirement between two actions of the list.
  pub record Requirement (rest : List Action) (f : Edge) : Type 0 where
    pub first : Action
    pub second : Action
    pub at_first : Listed first rest
    pub at_second : Listed second actions
    pub required : requires tree second first ≡ true
    pub from : f.0 ≡ index first actions
    pub to : f.1 ≡ index second actions

  elem-edges_of :
      (f : Edge) (a : Action) (xs : List Action)
      → elem_edge f (edges_of a (keep (needs a) xs)) ≡ true
      → (b : Action) × Listed b xs
        × (needs a b ≡ true)
        × (f.0 ≡ index a actions)
        × (f.1 ≡ index b actions)
  elem-edges_of f a [] h = cc
  elem-edges_of f a (x ∷ xs) h = elim (Bool-cases (needs a x)) [
    | inr o ↦ let (b, l, n, p, q) = elem-edges_of f a xs (rw o at h) in (b, inr l, n, p, q)
    | inl t ↦ elim (Bool-cases (index a actions == f.0 && index x actions == f.1)) [
      | inl same ↦ (x, inl refl, t, ground arith, ground arith)
      | inr other ↦
          let h' : (index a actions == f.0 && index x actions == f.1
                || elem_edge f (edges_of a (keep (needs a) xs)))
              ≡ true =
            rw t at h in
          let (b, l, n, p, q) = elem-edges_of f a xs (rw other at h') in (b, inr l, n, p, q)
    ]
  ]

  elem-edges_from :
      (f : Edge) (rest : List Action)
      → elem_edge f (edges_from tree actions rest) ≡ true
      → Requirement rest f
  elem-edges_from f [] h = cc
  elem-edges_from f (x ∷ rest) h =
      elim (Bool-cases (elem_edge f (edges_of x (keep (needs x) actions)))) [
        | inl here ↦
            let (b, l, n, p, q) = elem-edges_of f x actions here in
            record {
              first = x;
              second = b;
              at_first = inl refl;
              at_second = l;
              required = ground arith;
              from = p;
              to = q;
            }
        | inr later ↦
            let h' =
              elem_edge-append f (edges_of x (keep (needs x) actions))
                (edges_from tree actions rest) in
            let r = elem-edges_from f rest (ground (arith, h', later, h)) in
            record {
              first = r.first;
              second = r.second;
              at_first = inr r.at_first;
              at_second = r.at_second;
              required = r.required;
              from = r.from;
              to = r.to;
            }
      ]

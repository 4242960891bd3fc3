-- ===== src/Actions/Prune/Loops.antt =====
-- The loops of `prune` in blivet/actionlist.py, over a list of actions with distinct ids.
use blivet.Prelude.{
  ◌≡◌, refl, sym, ap, true, false, ok, subst, arith, List, [], ◌∷◌, ◌++◌, reverse, if◌then◌else◌,
  Bool-cases, inl, inr, ◌⊎◌,
}
use mathlib.Core.List.{reverse-append, reverse-reverse}
use blivet.Actions.Model.{Action}
use blivet.Actions.Obsoletes.{obsoletes}
use blivet.Actions.List.{is_listed, prune_by, prune_all, prune}
use blivet.Actions.Prune.{
  AreDistinct, Listed, Listed-is_listed, is_listed_same_id, same_id, drop_obsolete_total,
}

-- Some action of the list makes this one obsolete.
abbrev pub IsObsolete : List Action → Action → Type 0
IsObsolete all x = (a : Action) × Listed a all × (obsoletes a x ≡ true)

-- The result of pruning by one action, given the actions that it was held against.
record Pruned (all : List Action) (a : Action) (os actions left : List Action) : Type 0 where
  distinct : AreDistinct left
  within : (x : Action) → Listed x left → Listed x actions
  clean : (o : Action) → Listed o os → Listed o left → obsoletes a o ≡ false
  lost : (x : Action) → Listed x actions → Listed x left ⊎ IsObsolete all x

module _ (all : List Action) (d_all : AreDistinct all) where
  -- An action dropped in a round is obsolete.
  lost-IsObsolete :
      (a o x : Action)
      → Listed a all
      → Listed o all
      → Listed x all
      → ((x.id ≡ o.id) × (obsoletes a o ≡ true)) ⊎ ((x.id ≡ a.id) × (obsoletes o a ≡ true))
      → IsObsolete all x
  lost-IsObsolete a o x at_a at_o at_x (inl (same, h)) =
      let e = same_id x o all d_all at_x at_o same in
      (a, at_a, subst (λ y. obsoletes a y ≡ true) (sym e) h)
  lost-IsObsolete a o x at_a at_o at_x (inr (same, h)) =
      let e = same_id x a all d_all at_x at_a same in
      (o, at_o, subst (λ y. obsoletes o y ≡ true) (sym e) h)

  prune_by_total :
      (a : Action) (os actions : List Action)
      → Listed a all
      → AreDistinct os
      → ((x : Action) → Listed x os → Listed x all)
      → AreDistinct actions
      → ((x : Action) → Listed x actions → Listed x all)
      → ((o : Action) → Listed o os → obsoletes a o ≡ true → Listed o actions)
      → (left : List Action) × (prune_by a os actions ≡ ok left) × Pruned all a os actions left
  unfolding prune_by
  prune_by_total a [] actions at_a d_os sub_os d sub there = (
    actions,
    refl,
    record { distinct = d; within = λ x l. l; clean = λ o l. elim l [ ]; lost = λ x l. inl l },
  )
  prune_by_total a (o ∷ os) actions at_a d_os sub_os d sub there =
      let (next, dropped, r) = drop_obsolete_total a o actions d (there o (inl refl)) in
      let still : (x : Action) → Listed x os → obsoletes a x ≡ true → Listed x next = λ x l h.
        let at_x = there x (inr l) h in
        elim (r.kept x at_x (λ e. ground (arith, d_os.0, is_listed_same_id x o os e l))) [
          | inl kept ↦ kept
          | inr (same, never) ↦
              let e : x ≡ a = same_id x a all d_all (sub x at_x) at_a same in
              absurd (ground (arith, never, subst (λ y. obsoletes a y ≡ true) e h))
        ] in
      let (left, rest, p) =
        prune_by_total a os next at_a d_os.1 (λ x l. sub_os x (inr l)) r.distinct
          (λ x l. sub x (r.within x l)) still in
      (
        left,
        rw dropped rest,
        record {
          distinct = p.distinct;
          within = λ x l. r.within x (p.within x l);
          clean = λ x l at_x. elim l [
            | inr later ↦ p.clean x later at_x
            | inl e ↦ elim (Bool-cases (obsoletes a o)) [
              | inr needed ↦ subst (λ y. obsoletes a y ≡ false) (sym e) needed
              | inl h ↦ absurd (r.gone x (p.within x at_x) h (ap (λ (y : Action). y.id) e))
            ]
          ];
          lost = λ x l. elim (r.lost x l) [
            | inl kept ↦ p.lost x kept
            | inr why ↦ inr (lost-IsObsolete a o x at_a (sub_os o (inl refl)) (sub x l) why)
          ];
        },
      )

  -- One action's turn in the outer loop.
  turn_total :
      (a : Action) (actions : List Action)
      → Listed a all
      → AreDistinct actions
      → ((x : Action) → Listed x actions → Listed x all)
      → (left : List Action) × ((if is_listed a actions
            then prune_by a actions actions
            else ok actions)
          ≡ ok left)
        × AreDistinct left
        × ((x : Action) → Listed x left → Listed x actions)
        × ((x : Action) → Listed a left → Listed x left → obsoletes a x ≡ false)
        × ((x : Action) → Listed x actions → Listed x left ⊎ IsObsolete all x)
  turn_total a actions at_a d sub = elim (Bool-cases (is_listed a actions)) [
    | inr absent ↦ (
      actions,
      rw absent,
      d,
      λ x l. l,
      λ x la. absurd (ground (arith, absent, Listed-is_listed a actions la)),
      λ x l. inl l,
    )
    | inl there ↦
        let (left, e, p) = prune_by_total a actions actions at_a d sub d sub (λ o l h. l) in
        (left, rw there e, p.distinct, p.within, λ x la l. p.clean x (p.within x l) l, p.lost)
  ]

  prune_all_total :
      (later actions : List Action)
      → ((x : Action) → Listed x later → Listed x all)
      → AreDistinct actions
      → ((x : Action) → Listed x actions → Listed x all)
      → (left : List Action) × (prune_all later actions ≡ ok left)
        × AreDistinct left
        × ((x : Action) → Listed x left → Listed x actions)
        × ((a x : Action) → Listed a later → Listed a left → Listed x left → obsoletes a x ≡ false)
        × ((x : Action) → Listed x actions → Listed x left ⊎ IsObsolete all x)
  unfolding prune_all
  prune_all_total [] actions from d sub =
      (actions, refl, d, λ x l. l, λ a x l. elim l [ ], λ x l. inl l)
  prune_all_total (a ∷ later) actions from d sub =
      let (next, turned, d', within, clean, lost) =
        turn_total a actions (from a (inl refl)) d sub in
      let (left, rest, d'', within', clean', lost') =
        prune_all_total later next (λ x l. from x (inr l)) d' (λ x l. sub x (within x l)) in
      (
        left,
        rw turned rest,
        d'',
        λ x l. within x (within' x l),
        λ b x lb at_b at_x. elim lb [
          | inr in_later ↦ clean' b x in_later at_b at_x
          | inl e ↦
              let at_a = subst (λ y. Listed y left) e at_b in
              subst (λ y. obsoletes y x ≡ false) (sym e) (clean x (within' a at_a) (within' x at_x))
        ],
        λ x l. elim (lost x l) [ inl kept ↦ lost' x kept | inr why ↦ inr why ],
      )

Listed-snoc_old : (x y : Action) (front : List Action) → Listed x front → Listed x (front ++ y ∷ [])
Listed-snoc_old x y [] l = elim l [ ]
Listed-snoc_old x y (a ∷ front) (inl e) = inl e
Listed-snoc_old x y (a ∷ front) (inr l) = inr (Listed-snoc_old x y front l)

Listed-snoc_new : (x y : Action) (front : List Action) → x ≡ y → Listed x (front ++ y ∷ [])
Listed-snoc_new x y [] e = inl e
Listed-snoc_new x y (a ∷ front) e = inr (Listed-snoc_new x y front e)

Listed-reverse :
    (x : Action) (actions : List Action) → Listed x actions → Listed x (reverse actions)
Listed-reverse x [] l = elim l [ ]
Listed-reverse x (a ∷ actions) (inl e) =
    rw (reverse-append (a ∷ []) actions) (Listed-snoc_new x a (reverse actions) e)
Listed-reverse x (a ∷ actions) (inr l) =
    rw (reverse-append (a ∷ []) actions)
      (Listed-snoc_old x a (reverse actions) (Listed-reverse x actions l))

Listed-unreverse :
    (x : Action) (actions : List Action) → Listed x (reverse actions) → Listed x actions
Listed-unreverse x actions l =
    subst (λ ys. Listed x ys) (reverse-reverse actions) (Listed-reverse x (reverse actions) l)

-- What pruning does to a list of actions.
pub record IsPruned (actions left : List Action) : Type 0 where
  -- it leaves actions of the list, each once
  pub distinct : AreDistinct left
  pub within : (x : Action) → Listed x left → Listed x actions
  -- none that is left makes any that is left obsolete, itself included
  pub clean : (a x : Action) → Listed a left → Listed x left → obsoletes a x ≡ false
  -- and what is gone was made obsolete by an action of the list
  pub lost : (x : Action) → Listed x actions → Listed x left ⊎ IsObsolete actions x

-- Pruning a list of actions with distinct ids raises nothing. It leaves actions of the list, each
-- once, none of which makes any of them obsolete, and every action that is gone was made obsolete by
-- an action of the list.
pub prune-IsPruned :
    (actions : List Action)
    → AreDistinct actions
    → (left : List Action) × (prune actions ≡ ok left) × IsPruned actions left
unfolding prune
prune-IsPruned actions d =
    let (left, e, d', within, clean, lost) =
      prune_all_total actions d (reverse actions) actions (λ x l. Listed-unreverse x actions l) d
        (λ x l. l) in
    (
      left,
      e,
      record {
        distinct = d';
        within = within;
        clean = λ a x la lx. clean a x (Listed-reverse a actions (within a la)) la lx;
        lost = lost;
      },
    )

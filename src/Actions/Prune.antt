-- ===== src/Actions/Prune.antt =====
-- `prune` of blivet/actionlist.py raises nothing, and leaves no action that another makes obsolete.
pub mod Loops
use native.Mathlib.Decide.{ℕ_discrete}
use blivet.Prelude.{
  ℕ, suc, ◌+◌, ◌≡◌, ◌≢◌, refl, sym, ◌∙◌, ap, Bool, true, false, ◌&&◌, ◌||◌, not, Result, ok, err,
  ◌>>=◌, >>=-eq-ok, ok-injective, subst, arith, List, [], ◌∷◌, ◌++◌, reverse, if◌then◌else◌, ◌==◌,
  ==_iff, ==_refl, Bool-cases, inl, inr, ◌⊎◌,
}
use blivet.Actions.Model.{Action}
use blivet.Actions.Obsoletes.{obsoletes}
use blivet.Actions.Mutual.{mutual_members, mutual-irreflexive}
use blivet.Actions.List.{is_listed, remove_action, drop_obsolete, prune_by, prune_all, prune}

-- No two actions have one id.
abbrev pub AreDistinct : List Action → Type 0
AreDistinct [] = Unit
AreDistinct (a ∷ actions) = (is_listed a actions ≡ false) × AreDistinct actions

-- `b` itself, not only its id, is in the list.
abbrev pub Listed : Action → List Action → Type 0
Listed b [] = ⊥
Listed b (a ∷ actions) = (b ≡ a) ⊎ Listed b actions

pub Listed-is_listed :
    (b : Action) (actions : List Action) → Listed b actions → is_listed b actions ≡ true
Listed-is_listed b [] h = elim h [ ]
Listed-is_listed b (a ∷ actions) (inl e) = ground (arith, ap (λ (x : Action). x.id) e)
Listed-is_listed b (a ∷ actions) (inr h) = ground (arith, Listed-is_listed b actions h)

pub is_listed-Listed :
    (b : Action) (actions : List Action)
    → is_listed b actions ≡ true
    → (a : Action) × Listed a actions × (a.id ≡ b.id)
is_listed-Listed b [] h = cc
is_listed-Listed b (a ∷ actions) h = elim (Bool-cases (b.id == a.id)) [
  | inl same ↦ (a, inl refl, ground arith)
  | inr other ↦ let (c, l, e) = is_listed-Listed b actions (rw other at h) in (c, inr l, e)
]

pub is_listed_same_id :
    (x y : Action) (actions : List Action)
    → x.id ≡ y.id
    → Listed x actions
    → is_listed y actions ≡ true
is_listed_same_id x y actions e h = rw e at (Listed-is_listed x actions h)

-- In a list of distinct ids, an id names one action.
pub same_id :
    (x y : Action) (actions : List Action)
    → AreDistinct actions
    → Listed x actions
    → Listed y actions
    → x.id ≡ y.id
    → x ≡ y
same_id x y (a ∷ actions) d (inl p) (inl q) e = p ∙ sym q
same_id x y (a ∷ actions) d (inl p) (inr q) e =
    absurd (ground (arith, d.0, is_listed_same_id y x actions (sym e) q, p))
same_id x y (a ∷ actions) d (inr p) (inl q) e =
    absurd (ground (arith, d.0, is_listed_same_id x y actions e p, q))
same_id x y (a ∷ actions) d (inr p) (inr q) e = same_id x y actions d.1 p q e
same_id x y [] d p q e = elim p [ ]

still_apart :
    (a : Action) (left actions : List Action)
    → ((x : Action) → Listed x left → Listed x actions)
    → is_listed a actions ≡ false
    → is_listed a left ≡ false
still_apart a left actions within h = elim (Bool-cases (is_listed a left)) [
  | inl there ↦
      let (b, l, e) = is_listed-Listed a left there in
      absurd (ground (arith, h, is_listed_same_id b a actions e (within b l)))
  | inr absent ↦ absent
]

-- What is left of a list once an action of it is removed: the others.
record Removed (o : Action) (actions left : List Action) : Type 0 where
  distinct : AreDistinct left
  within : (x : Action) → Listed x left → Listed x actions
  gone : (x : Action) → Listed x left → x.id ≢ o.id
  kept : (x : Action) → Listed x actions → x.id ≢ o.id → Listed x left

remove_action_total :
    (o : Action) (actions : List Action)
    → AreDistinct actions
    → is_listed o actions ≡ true
    → (left : List Action) × (remove_action o actions ≡ ok left) × Removed o actions left
unfolding remove_action
remove_action_total o [] d h = cc
remove_action_total o (a ∷ actions) d h = elim (Bool-cases (a.id == o.id)) [
  | inl same ↦ (
    actions,
    rw same,
    record {
      distinct = d.1;
      within = λ x l. inr l;
      gone = λ x l e.
          ground (arith, d.0, is_listed_same_id x a actions (e ∙ sym ((==_iff _ _).0 same)) l);
      kept = λ x l ne. elim l [ inl e ↦ absurd (ground (arith, e, ne)) | inr l' ↦ l' ];
    },
  )
  | inr other ↦
      let (left, removed, r) =
        remove_action_total o actions d.1 (ground (arith, ==_iff a.id o.id, ==_iff o.id a.id)) in
      (
        a ∷ left,
        rw (other, removed),
        record {
          distinct = (still_apart a left actions r.within d.0, r.distinct);
          within = λ x l. elim l [ inl e ↦ inl e | inr l' ↦ inr (r.within x l') ];
          gone = λ x l. elim l [ inl e ↦ ground (arith, e) | inr l' ↦ r.gone x l' ];
          kept = λ x l ne. elim l [ inl e ↦ inl e | inr l' ↦ inr (r.kept x l' ne) ];
        },
      )
]

-- What one round of the inner loop leaves: the actions that it does not drop, which are the obsolete
-- one and perhaps the action itself.
pub record Dropped (a o : Action) (actions left : List Action) : Type 0 where
  pub distinct : AreDistinct left
  pub within : (x : Action) → Listed x left → Listed x actions
  pub gone : (x : Action) → Listed x left → obsoletes a o ≡ true → x.id ≢ o.id
  pub kept :
      (x : Action)
      → Listed x actions
      → x.id ≢ o.id
      → Listed x left ⊎ ((x.id ≡ a.id) × (obsoletes a a ≡ false))
  -- what is dropped was obsolete
  pub lost :
      (x : Action)
      → Listed x actions
      → Listed x left
        ⊎ ((x.id ≡ o.id) × (obsoletes a o ≡ true))
        ⊎ ((x.id ≡ a.id) × (obsoletes o a ≡ true))

pub drop_obsolete_total :
    (a o : Action) (actions : List Action)
    → AreDistinct actions
    → (obsoletes a o ≡ true → Listed o actions)
    → (left : List Action) × (drop_obsolete a o actions ≡ ok left) × Dropped a o actions left
unfolding drop_obsolete
drop_obsolete_total a o actions d there = elim (Bool-cases (obsoletes a o)) [
  | inr needed ↦ (
    actions,
    rw needed,
    record {
      distinct = d;
      within = λ x l. l;
      gone = λ x l h. absurd (ground (arith, h, needed));
      kept = λ x l ne. inl l;
      lost = λ x l. inl l;
    },
  )
  | inl obsolete ↦
      let (left, removed, r) =
        remove_action_total o actions d (Listed-is_listed o actions (there obsolete)) in
      elim (Bool-cases (obsoletes o a && is_listed a left)) [
        | inr single ↦ (
          left,
          rw (obsolete, removed, single),
          record {
            distinct = r.distinct;
            within = r.within;
            gone = λ x l h. r.gone x l;
            kept = λ x l ne. inl (r.kept x l ne);
            lost = λ x l. elim (ℕ_discrete x.id o.id) [
              | yes same ↦ inr (inl (same, obsolete))
              | no other ↦ inl (r.kept x l other)
            ];
          },
        )
        | inl both ↦
            let listed : is_listed a left ≡ true = ground arith in
            let (last, removed', r') = remove_action_total a left r.distinct listed in
            let (c, at_c, same_c) = is_listed-Listed a left listed in
            let apart : a.id ≢ o.id = λ e. r.gone c at_c (same_c ∙ e) in
            let not_self = mutual-irreflexive a o apart obsolete (ground arith) in
            (
              last,
              rw (obsolete, removed, both, removed'),
              record {
                distinct = r'.distinct;
                within = λ x l. r.within x (r'.within x l);
                gone = λ x l h. r.gone x (r'.within x l);
                kept = λ x l ne. elim (ℕ_discrete x.id a.id) [
                  | yes same ↦ inr (same, not_self)
                  | no other ↦ inl (r'.kept x (r.kept x l ne) other)
                ];
                lost = λ x l. elim (ℕ_discrete x.id o.id) [
                  | yes same ↦ inr (inl (same, obsolete))
                  | no ne ↦ elim (ℕ_discrete x.id a.id) [
                    | yes same ↦ inr (inr (same, ground arith))
                    | no other ↦ inl (r'.kept x (r.kept x l ne) other)
                  ]
                ];
              },
            )
      ]
]

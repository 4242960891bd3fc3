-- ===== src/Actions/Sort/Schedule.antt =====
-- What `sort` of blivet/actionlist.py gives: the same actions, each after those that it requires.
use blivet.Prelude.{
  ℕ, zero, suc, ◌<◌, ◌≡◌, refl, sym, Bool, true, false, ok, >>=-eq-ok, ok-injective, subst, arith,
  List, [], ◌∷◌, length, get_elem?, if◌then◌else◌, ◌==◌, ==_iff, ==_refl, Bool-cases, inl, inr,
  some, Option-cases, elem, IsDistinct,
}
use blivet.Actions.Model.{Action}
use blivet.Actions.List.{is_listed, index, pick}
use blivet.Actions.Prune.{AreDistinct, Listed, same_id}
use blivet.Actions.Sort.{get-Listed, get-index, index-get}
use blivet.Tsort.Members.{precedes}

-- Action `a` stands before action `b`.
abbrev pub comes_before : Action → Action → List Action → Bool
comes_before a b [] = false
comes_before a b (x ∷ xs) = if a.id == x.id then is_listed b xs else comes_before a b xs

pick-cons :
    (actions : List Action) (i : ℕ) (order : List ℕ) {picked : List Action}
    → pick actions (i ∷ order) ≡ ok picked
    → (a : Action) × (rest : List Action) × (get_elem? actions i ≡ some a)
      × (pick actions order ≡ ok rest)
      × (picked ≡ a ∷ rest)
pick-cons actions i order h =
    let (rest, picked, last) = >>=-eq-ok (pick actions order) _ h in
    elim (Option-cases (get_elem? actions i)) [
      | inl missing ↦ absurd (ground (arith, missing))
      | inr (a, found) ↦ (a, rest, found, picked, ground (arith, found))
    ]

get_total :
    (actions : List Action) (i : ℕ)
    → i < length actions
    → (a : Action) × (get_elem? actions i ≡ some a)
get_total [] i h = elim h [ ]
get_total (x ∷ actions) zero h = (x, refl)
get_total (x ∷ actions) (suc i) h = get_total actions i (omega arith)

module _ (actions : List Action) (d : AreDistinct actions) where
  -- Ids and positions of actions of the list agree.
  same_position :
      (x a : Action) (i : ℕ)
      → Listed x actions
      → get_elem? actions i ≡ some a
      → (index x actions == i) ≡ (x.id == a.id)
  same_position x a i l found = elim (Bool-cases (x.id == a.id)) [
    | inl same ↦
        let e : x ≡ a =
          same_id x a actions d l (get-Listed a actions i found) ((==_iff _ _).0 same) in
        let at : index x actions ≡ i = rw e (get-index a actions i d found) in
        ground (arith, same, at)
    | inr other ↦ elim (Bool-cases (index x actions == i)) [
      | inr apart ↦ ground (arith, other, apart)
      | inl at ↦
          let found' = index-get x actions d l in
          absurd (ground (arith, found, found', (==_iff _ _).0 at, other, ==_refl x.id))
    ]
  ]

  pub pick-is_listed :
      (x : Action) (order : List ℕ) (picked : List Action)
      → Listed x actions
      → pick actions order ≡ ok picked
      → is_listed x picked ≡ elem (index x actions) order
  pick-is_listed x [] picked l h = ground arith
  pick-is_listed x (i ∷ order) picked l h =
      let (a, rest, found, picked_rest, e) = pick-cons actions i order h in
      rw e (ground (arith, same_position x a i l found, pick-is_listed x order rest l picked_rest))

  pub pick-comes_before :
      (x y : Action) (order : List ℕ) (picked : List Action)
      → Listed x actions
      → Listed y actions
      → pick actions order ≡ ok picked
      → comes_before x y picked ≡ precedes (index x actions) (index y actions) order
  pick-comes_before x y [] picked lx ly h = ground arith
  pick-comes_before x y (i ∷ order) picked lx ly h =
      let (a, rest, found, picked_rest, e) = pick-cons actions i order h in
      rw e (
        ground (
          arith,
          same_position x a i lx found,
          pick-is_listed y order rest ly picked_rest,
          pick-comes_before x y order rest lx ly picked_rest,
        ))

  pub pick-within :
      (x : Action) (order : List ℕ) (picked : List Action)
      → pick actions order ≡ ok picked
      → Listed x picked
      → Listed x actions
  pick-within x [] picked h l = elim (subst (λ ys. Listed x ys) (sym (ok-injective h)) l) [ ]
  pick-within x (i ∷ order) picked h l =
      let (a, rest, found, picked_rest, e) = pick-cons actions i order h in
      elim (subst (λ ys. Listed x ys) e l) [
        | inl same ↦ subst (λ y. Listed y actions) (sym same) (get-Listed a actions i found)
        | inr later ↦ pick-within x order rest picked_rest later
      ]

  pub pick-AreDistinct :
      (order : List ℕ) (picked : List Action)
      → IsDistinct order
      → pick actions order ≡ ok picked
      → AreDistinct picked
  pick-AreDistinct [] picked o h = subst AreDistinct (ok-injective h) tt
  pick-AreDistinct (i ∷ order) picked o h =
      let (a, rest, found, picked_rest, e) = pick-cons actions i order h in
      let at = get-Listed a actions i found in
      subst AreDistinct (sym e) (
        ground
            (arith, pick-is_listed a order rest at picked_rest, get-index a actions i d found, o.0),
        pick-AreDistinct order rest o.1 picked_rest,
      )

  pub pick_total :
      (order : List ℕ)
      → ((i : ℕ) → elem i order ≡ true → i < length actions)
      → (picked : List Action) × (pick actions order ≡ ok picked)
  pick_total [] bound = ([], refl)
  pick_total (i ∷ order) bound =
      let (rest, e) = pick_total order (λ j h. bound j (ground (arith, h))) in
      let (a, found) = get_total actions i (bound i (ground (arith, ==_refl i))) in
      (a ∷ rest, rw (e, found))

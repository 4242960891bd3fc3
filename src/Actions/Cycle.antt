-- ===== src/Actions/Cycle.antt =====
-- Actions of blivet/deviceaction.py that require one another, which blivet/actionlist.py cannot sort.
use blivet.Prelude.{
  ◌≡◌, ◌≢◌, refl, sym, true, false, ok, arith, List, [], ◌∷◌, Bool-cases, inl, inr, ◌⊎◌,
}
use blivet.Actions.Model.{Action, Tree, create_device, create_format, is_configure, device_depends}
use blivet.Actions.Requires.{requires}
use blivet.Actions.List.{is_listed, sort}
use blivet.Actions.Prune.{AreDistinct, Listed}
use blivet.Actions.Sort.Schedule.{comes_before}
use blivet.Actions.Sort.Correct.{sort-IsSchedule}

comes_before-listed :
    (a b : Action) (xs : List Action) → comes_before a b xs ≡ true → is_listed b xs ≡ true
comes_before-listed a b [] h = cc
comes_before-listed a b (x ∷ xs) h = ground (arith, comes_before-listed a b xs)

is_listed-same : (a x : Action) (xs : List Action) → a.id ≡ x.id → is_listed a xs ≡ is_listed x xs
is_listed-same a x [] e = refl
is_listed-same a x (y ∷ xs) e = ground (arith, is_listed-same a x xs e)

-- In a list of distinct actions, only one of two stands before the other.
comes_before_asymm :
    (a b : Action) (xs : List Action)
    → AreDistinct xs
    → a.id ≢ b.id
    → comes_before a b xs ≡ true
    → comes_before b a xs ≡ false
comes_before_asymm a b [] d ne h = cc
comes_before_asymm a b (x ∷ xs) d ne h = elim (Bool-cases (comes_before b a (x ∷ xs))) [
  | inr no_cycle ↦ no_cycle
  | inl also ↦ absurd (
      ground (
        arith,
        d.0,
        comes_before_asymm a b xs d.1 ne,
        comes_before-listed a b xs,
        comes_before-listed b a xs,
        is_listed-same a x xs,
        is_listed-same b x xs,
      ))
]

-- Two actions of a list that require one another cannot be sorted: where the ids are distinct,
-- `sort` does not return a list.
pub sort_mutual :
    (tree : Tree) (actions sorted : List Action) (a b : Action)
    → AreDistinct actions
    → Listed a actions
    → Listed b actions
    → a.id ≢ b.id
    → requires tree a b ≡ true
    → requires tree b a ≡ true
    → sort tree actions ≢ ok sorted
sort_mutual tree actions sorted a b d la lb ne ab ba e =
    let s = sort-IsSchedule tree actions d e in
    let first = s.required_first a b la lb ne ba in
    let second = s.required_first b a lb la (λ x. ne (sym x)) ab in
    ground (arith, second, comes_before_asymm a b sorted s.distinct ne first)

-- A configure action on a device and an action that creates a device on it, or its format, require
-- one another: the first for its lower type, the second for its device.
configure_create :
    (tree : Tree) (c n : Action)
    → is_configure c ≡ true
    → (n.kind ≡ create_device) ⊎ (n.kind ≡ create_format)
    → device_depends tree n c ≡ true
    → (requires tree c n ≡ true) × (requires tree n c ≡ true)
unfolding requires
configure_create tree c n conf (inl k) h = (ground arith, ground arith)
configure_create tree c n conf (inr k) h = (ground arith, ground arith)

-- A list of actions with distinct ids that holds an action to configure a device, or its format,
-- and an action to create a device that depends on that device, or a format on one, cannot be
-- sorted: `sort` does not return a list.
pub sort_configure_create :
    (tree : Tree) (actions sorted : List Action) (c n : Action)
    → AreDistinct actions
    → Listed c actions
    → Listed n actions
    → c.id ≢ n.id
    → is_configure c ≡ true
    → (n.kind ≡ create_device) ⊎ (n.kind ≡ create_format)
    → device_depends tree n c ≡ true
    → sort tree actions ≢ ok sorted
sort_configure_create tree actions sorted c n d lc ln ne conf kind h =
    let (cn, nc) = configure_create tree c n conf kind h in
    sort_mutual tree actions sorted c n d lc ln ne cn nc

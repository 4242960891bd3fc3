-- ===== src/Actions/Mutual.antt =====
-- Which actions of blivet/deviceaction.py obsolete one another.
use blivet.Prelude.{◌≡◌, ◌≢◌, true, false, ◌⊎◌, arith, inl, inr}
use blivet.Actions.Model.{Action, is_add, is_remove}
use blivet.Actions.Obsoletes.{obsoletes}

-- An action that adds or removes a member does not obsolete itself.
add_member-irreflexive : (a : Action) → is_add a ≡ true → obsoletes a a ≡ false
unfolding obsoletes
add_member-irreflexive a h = ground arith

remove_member-irreflexive : (a : Action) → is_remove a ≡ true → obsoletes a a ≡ false
unfolding obsoletes
remove_member-irreflexive a h = ground arith

-- Two actions with different ids that obsolete one another are the addition of a member and the
-- removal of one.
pub mutual_members :
    (a b : Action)
    → a.id ≢ b.id
    → obsoletes a b ≡ true
    → obsoletes b a ≡ true
    → ((is_add a ≡ true) × (is_remove b ≡ true)) ⊎ ((is_remove a ≡ true) × (is_add b ≡ true))
unfolding obsoletes
mutual_members a b h p q = ground arith

-- An action of such a pair does not obsolete itself.
pub mutual-irreflexive :
    (a b : Action)
    → a.id ≢ b.id
    → obsoletes a b ≡ true
    → obsoletes b a ≡ true
    → obsoletes a a ≡ false
mutual-irreflexive a b h p q = elim (mutual_members a b h p q) [
  | inl (adds, _) ↦ add_member-irreflexive a adds
  | inr (removes, _) ↦ remove_member-irreflexive a removes
]

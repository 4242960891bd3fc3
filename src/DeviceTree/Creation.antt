-- ===== src/DeviceTree/Creation.antt =====
-- The list of actions of blivet/actionlist.py, over the devices of the tree: `Tree` of Actions/Model.antt
-- filled by `depends_on` and `ancestors` of blivet/devices/device.py.
use blivet.Prelude.{
  ℕ, ◌+◌, ◌*◌, ◌<◌, ◌≡◌, refl, ap, Bool, true, ◌&&◌, not, List, ◌==◌, arith, ok, if◌then◌else◌, inl,
  inr, ◌⊎◌, ==_iff,
}
use blivet.Actions.Model.{
  Kind, create_device, destroy_device, resize_device, create_format, destroy_format, resize_format,
  add_member, remove_member, configure_format, configure_device, Action, Tree, type, is_create,
  is_device,
}
use blivet.Actions.Requires.{requires}
use blivet.Actions.List.{sort}
use blivet.Actions.Prune.{AreDistinct, Listed}
use blivet.Actions.Sort.Correct.{IsSchedule, sort_total}
use blivet.DeviceTree.Store.{DeviceTree, depends_on, ancestors}
use blivet.DeviceTree.Ancestors.{Ancestor, parent, above, IsAcyclic, depends_on→Ancestor}

-- What the actions ask of the tree, to a depth.
unfoldable pub tree_of : ℕ → DeviceTree → Tree
tree_of depth t = record { depends_on = depends_on depth t; ancestors = ancestors depth t }

-- An action that creates a device or a format, where the device is neither a partition nor an LV.
unfoldable pub only_creates : Action → Bool
only_creates a = is_create a && not a.device.is_partition && not a.device.is_lv

Ancestor-falls :
    (t : DeviceTree) (rank : ℕ → ℕ) {d a : ℕ} → IsAcyclic t rank → Ancestor t d a → rank a < rank d
Ancestor-falls t rank {d} {a} falls (parent h) = falls d a h
Ancestor-falls t rank {d} {a} falls (above {p = p} h up) =
    omega (arith, falls d p h, Ancestor-falls t rank falls up)

create-cases : (k : Kind) → (type k == 100) ≡ true → (k ≡ create_device) ⊎ (k ≡ create_format)
create-cases create_device h = inl refl
create-cases create_format h = inr refl
create-cases destroy_device h = cc
create-cases resize_device h = cc
create-cases destroy_format h = cc
create-cases resize_format h = cc
create-cases add_member h = cc
create-cases remove_member h = cc
create-cases configure_format h = cc
create-cases configure_device h = cc

-- A device comes before its format, and both after what the device depends on.
abbrev rank_of_action : (ℕ → ℕ) → Action → ℕ
rank_of_action rank a = 2 * rank a.device.id + (if is_device a then 0 else 1)

module _ (depth : ℕ) (t : DeviceTree) (rank : ℕ → ℕ) (falls : IsAcyclic t rank) where
  depends-falls :
      (b a : Action)
      → depends_on depth t b.device.id a.device.id ≡ true
      → rank_of_action rank a < rank_of_action rank b
  depends-falls b a h =
      let below = Ancestor-falls t rank falls (depends_on→Ancestor depth t _ _ h) in
      ground (arith, below)

  same_rank :
      (b a : Action) → (b.device.id == a.device.id) ≡ true → rank b.device.id ≡ rank a.device.id
  same_rank b a h = ap rank ((==_iff _ _).0 h)

  requires-falls :
      (b a : Action)
      → only_creates b ≡ true
      → only_creates a ≡ true
      → requires (tree_of depth t) b a ≡ true
      → rank_of_action rank a < rank_of_action rank b
  unfolding only_creates requires tree_of
  requires-falls b a cb ca r =
      let created : (type b.kind == 100) ≡ true = ground arith in
      elim (create-cases b.kind created) [
        | inl kb ↦ elim (create-cases a.kind (ground arith)) [
          | inl ka ↦ ground (arith, depends-falls b a, kb, ka)
          | inr ka ↦ ground (arith, depends-falls b a, kb, ka)
        ]
        | inr kb ↦ elim (create-cases a.kind (ground arith)) [
          | inl ka ↦ ground (arith, depends-falls b a, kb, ka, same_rank b a)
          | inr ka ↦ ground (arith, depends-falls b a, kb, ka)
        ]
      ]

-- Where ranks fall along parents, `sort` of actions with distinct ids that create devices and formats,
-- of devices of the tree that are neither partitions nor LVs, raises nothing; it gives the same actions,
-- each once and after all others that it requires, so each device after those that it depends on, and
-- each format after its device.
pub sort-creates :
    (depth : ℕ) (t : DeviceTree) (rank : ℕ → ℕ) (actions : List Action)
    → IsAcyclic t rank
    → AreDistinct actions
    → ((a : Action) → Listed a actions → only_creates a ≡ true)
    → (sorted : List Action) × (sort (tree_of depth t) actions ≡ ok sorted)
      × IsSchedule (tree_of depth t) actions sorted
sort-creates depth t rank actions falls distinct creates =
    sort_total (tree_of depth t) actions (rank_of_action rank) distinct
      (λ a b la lb r. requires-falls depth t rank falls b a (creates b lb) (creates a la) r)

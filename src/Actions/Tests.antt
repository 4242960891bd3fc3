-- ===== src/Actions/Tests.antt =====
-- Actions on two devices, as blivet/deviceaction.py and blivet/actionlist.py treat them.
use blivet.Prelude.{
  ℕ, ◌-◌, ◌≡◌, ◌≢◌, ◌<◌, refl, true, false, ◌&&◌, ◌==◌, ok, arith, List, [], ◌∷◌, none, some, inl,
  inr,
}
use blivet.Actions.Model.{
  Kind, create_device, destroy_device, create_format, add_member, remove_member, configure_device,
  Device, Action, Tree, shrink,
}
use blivet.Actions.Requires.{requires}
use blivet.Actions.Obsoletes.{obsoletes}
use blivet.Actions.List.{
  sort, prune, remove_action, drop_obsolete, prune_by, prune_all, sort_nonempty,
}
use blivet.Actions.Find.{Query, action_type_from_string}
use blivet.Actions.Prune.{AreDistinct, Listed}
use blivet.Actions.Prune.Loops.{IsPruned, prune-IsPruned}
use blivet.Actions.Sort.Correct.{IsSchedule, sort-IsSchedule, sort_total}
use blivet.Actions.Cycle.{sort_configure_create}
use blivet.Tsort.{
  create_graph, tsort, zero_counts, count_edges, roots_of, remove_edge, drop_edge, drop_edges,
  visit, sort_from, increment,
}

abbrev group : Device
group = record {
  id = 1;
  path = "/dev/mapper/vg";
  exists = true;
  is_partition = false;
  disk = 0;
  number = 0;
  disklabel_supported = false;
  is_lv = false;
  vg = 0;
  cached = false;
  linear = true;
  container = none;
}

abbrev volume : Device
volume = record group {
  id = 2;
  path = "/dev/mapper/vg-lv";
  exists = false;
  is_lv = true;
  vg = 1;
  container = some 1;
}

abbrev act : ℕ → Kind → Device → Action
act id kind d = record {
  id = id;
  kind = kind;
  device = d;
  container = d.container;
  dir = shrink;
  format_exists = false;
  attr = 0;
}

-- The volume depends on its group.
abbrev tree : Tree
tree = record { depends_on = λ a b. (a == 2) && (b == 1); ancestors = λ d. d ∷ [] }

abbrev format_volume : Action
format_volume = act 10 create_format volume

abbrev create_volume : Action
create_volume = act 11 create_device volume

abbrev rename_group : Action
rename_group = act 12 configure_device group

abbrev add_volume : Action
add_volume = act 13 add_member volume

abbrev remove_volume : Action
remove_volume = act 14 remove_member volume

abbrev destroy_volume : Action
destroy_volume = act 15 destroy_device volume

abbrev two_creates : List Action
two_creates = format_volume ∷ create_volume ∷ []

two_creates-AreDistinct : AreDistinct two_creates
two_creates-AreDistinct = (refl, (refl, tt))

sort-two_creates : sort tree two_creates ≡ ok (create_volume ∷ format_volume ∷ [])
unfolding sort sort_nonempty requires create_graph tsort zero_counts count_edges increment roots_of
    remove_edge drop_edge drop_edges visit sort_from
sort-two_creates = refl

sort-IsSchedule_example : IsSchedule tree two_creates (create_volume ∷ format_volume ∷ [])
sort-IsSchedule_example = sort-IsSchedule tree two_creates two_creates-AreDistinct sort-two_creates

-- The device is created before its format.
abbrev rank : Action → ℕ
rank a = 11 - a.id

rank-grows :
    (a b : Action)
    → Listed a two_creates
    → Listed b two_creates
    → requires tree b a ≡ true
    → rank a < rank b
unfolding requires
rank-grows a b (inl p) (inl q) h = absurd (ground (arith, p, q))
rank-grows a b (inl p) (inr (inl q)) h = absurd (ground (arith, p, q))
rank-grows a b (inr (inl p)) (inl q) h = ground (arith, p, q)
rank-grows a b (inr (inl p)) (inr (inl q)) h = absurd (ground (arith, p, q))
rank-grows a b (inr (inr p)) l h = elim p [ ]
rank-grows a b l (inr (inr q)) h = elim q [ ]

sort_total_example :
    (sorted : List Action) × (sort tree two_creates ≡ ok sorted)
    × IsSchedule tree two_creates sorted
sort_total_example = sort_total tree two_creates rank two_creates-AreDistinct rank-grows

-- A volume that is created and destroyed again is never touched.
abbrev create_destroy : List Action
create_destroy = create_volume ∷ destroy_volume ∷ []

prune-create_destroy : prune create_destroy ≡ ok []
unfolding prune prune_all prune_by drop_obsolete remove_action obsoletes
prune-create_destroy = refl

prune-IsPruned_example :
    (left : List Action) × (prune create_destroy ≡ ok left) × IsPruned create_destroy left
prune-IsPruned_example = prune-IsPruned create_destroy (refl, (refl, tt))

-- The renaming of a group, and a new volume in it.
abbrev rename_create : List Action
rename_create = rename_group ∷ create_volume ∷ []

rename-requires : requires tree rename_group create_volume ≡ true
unfolding requires
rename-requires = refl

create-requires : requires tree create_volume rename_group ≡ true
unfolding requires
create-requires = refl

sort_configure_create_example : sort tree rename_create ≢ ok (create_volume ∷ rename_group ∷ [])
sort_configure_create_example =
    sort_configure_create tree rename_create (create_volume ∷ rename_group ∷ []) rename_group
      create_volume (refl, (refl, tt)) (inl refl) (inr (inl refl)) (omega arith) refl (inl refl)
      refl

add-obsoletes : obsoletes add_volume remove_volume ≡ true
unfolding obsoletes
add-obsoletes = refl

remove-obsoletes : obsoletes remove_volume add_volume ≡ true
unfolding obsoletes
remove-obsoletes = refl

abbrev shrinks : Query
shrinks = record {
  device = none;
  action_type = some "Shrink";
  object_type = none;
  path = none;
  devid = none;
}

shrinks_code : action_type_from_string (some "Shrink") ≡ some 88
unfolding action_type_from_string
shrinks_code = refl

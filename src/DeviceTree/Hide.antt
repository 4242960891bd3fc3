-- ===== src/DeviceTree/Hide.antt =====
-- `hide` and `unhide` of blivet/devicetree.py, with `cancel_disk_actions` and what they call. The state is
-- that of Session; `lvm_devices_add` and `lvm_devices_remove` are those of blivet/devicelibs/lvm.py.
use blivet.Prelude.{
  ℕ, zero, suc, Bool, true, false, ◌&&◌, ◌||◌, not, String, str_eq, Result, ok, err, ◌>>=◌,
  out_of_fuel, List, [], ◌∷◌, ◌++◌, leb, ◌==◌, if◌then◌else◌, elem, without, any, keep, reverse,
}
use blivet.Actions.Model.{Action}
use blivet.DeviceTree.Store.{DeviceTree, depends_on, add_hook}
use blivet.DeviceTree.Registry.{remove_device}
use blivet.DeviceTree.Session.{Session, cancel_listed}

-- `children` of a device: by the natural order of names.
abbrev pub insert_child : DeviceTree → ℕ → List ℕ → List ℕ
insert_child t c [] = c ∷ []
insert_child t c (x ∷ xs) =
    if leb (t.node c).natural_key (t.node x).natural_key
    then c ∷ x ∷ xs
    else x ∷ insert_child t c xs

abbrev pub sort_children : DeviceTree → List ℕ → List ℕ
sort_children t [] = []
sort_children t (x ∷ xs) = insert_child t x (sort_children t xs)

abbrev pub children_of : DeviceTree → ℕ → List ℕ
children_of t d = sort_children t (t.node d).children

-- `Device.disks`, to a depth.
abbrev extend_new : List ℕ → List ℕ → List ℕ
extend_new xs ys = xs ++ keep (λ y. not (elem y xs)) ys

abbrev gather : (ℕ → List ℕ) → List ℕ → List ℕ → List ℕ
gather disks [] found = found
gather disks (p ∷ ps) found = gather disks ps (extend_new found (disks p))

unfoldable pub disks : ℕ → DeviceTree → ℕ → List ℕ
disks zero t d = []
disks (suc depth) t d =
    gather (disks depth t) (t.node d).parents []
    ++ (if (t.node d).is_disk && not (t.node d).format_hidden then d ∷ [] else [])

-- `get_disk_actions`
abbrev related_disks : ℕ → DeviceTree → List ℕ → List Action → List ℕ
related_disks depth t ds [] = []
related_disks depth t ds (a ∷ actions) =
    (if any (λ d. depends_on depth t a.device.id d) ds then disks depth t a.device.id else [])
    ++ related_disks depth t ds actions

unfoldable pub get_disk_actions : ℕ → DeviceTree → List ℕ → List Action → List Action
unfolding disks depends_on
get_disk_actions depth t ds actions =
    keep
      (λ (a : Action).
        any (λ d. elem d (related_disks depth t ds actions)) (disks depth t a.device.id))
      actions

-- `lvm_devices_remove` and `lvm_devices_add`: the paths are a set.
abbrev pub lvm_devices_remove : String → List String → List String
lvm_devices_remove path paths = keep (λ p. not (str_eq p path)) paths

abbrev pub lvm_devices_add : String → List String → List String
lvm_devices_add path paths = if any (str_eq path) paths then paths else path ∷ paths

abbrev pub forget_pv : DeviceTree → ℕ → DeviceTree
forget_pv t d =
    if (t.node d).format_is_pv
    then record t { lvm_devices = lvm_devices_remove (t.node d).path t.lvm_devices }
    else t

abbrev pub allow_pv : DeviceTree → ℕ → DeviceTree
allow_pv t d =
    if (t.node d).format_is_pv
    then record t { lvm_devices = lvm_devices_add (t.node d).path t.lvm_devices }
    else t

module _ (apply cancel : Action → Result (Unit {0})) (depth : ℕ) where
  unfoldable pub cancel_each : List Action → Session → Result Session
  unfolding cancel_listed
  cancel_each [] s = ok s
  cancel_each (a ∷ actions) s = do s' ← cancel_listed apply cancel s a; cancel_each actions s'

  unfoldable pub cancel_disk_actions : Session → List ℕ → Result Session
  unfolding cancel_each get_disk_actions
  cancel_disk_actions s ds = cancel_each (reverse (get_disk_actions depth s.tree ds s.actions)) s

  -- The end of `hide`: the device itself.
  abbrev pub hide_leaf : Session → ℕ → Result Session
  hide_leaf s d =
      if (s.tree.node d).exists
      then (do
        t ← remove_device s.tree d true
        ok (record s { tree = forget_pv (record t { hidden = t.hidden ++ d ∷ [] }) d }))
      else ok s

  abbrev pub hide_each : (Session → ℕ → Result Session) → List ℕ → Session → Result Session
  hide_each hide_one [] s = ok s
  hide_each hide_one (c ∷ cs) s = do s' ← hide_one s c; hide_each hide_one cs s'

  -- `hide`, on a number of levels of children at most.
  unfoldable pub hide : ℕ → Session → ℕ → Result Session
  unfolding cancel_disk_actions
  hide zero s d = err out_of_fuel
  hide (suc levels) s d = elim (elem d s.tree.hidden) [
    | true ↦ ok s
    | false ↦ (do
      cancelled ← if (s.tree.node d).is_disk then cancel_disk_actions s (d ∷ []) else ok s
      leaf ← hide_each (hide levels) (children_of cancelled.tree d) cancelled
      hide_leaf leaf d)
  ]

-- The loop of `unhide` over the hidden devices, the last one first. The test is
-- `hidden == device or (hidden.depends_on(device) and not any(...))`.
abbrev pub shows : ℕ → DeviceTree → ℕ → ℕ → Bool
shows depth t device h =
    h == device
    || (depends_on depth t h device && not (any (λ p. elem p t.hidden) (t.node h).parents))

abbrev pub show_one : DeviceTree → ℕ → Result DeviceTree
show_one t h = do
  t' ←
      add_hook (t.node h).parents h
        (record t { hidden = without h t.hidden; devices = t.devices ++ h ∷ [] })
  ok (allow_pv t' h)

unfoldable pub unhide_each : ℕ → ℕ → List ℕ → DeviceTree → Result DeviceTree
unfolding depends_on add_hook
unhide_each depth device [] t = ok t
unhide_each depth device (h ∷ hs) t = do
  t' ← if shows depth t device h then show_one t h else ok t
  unhide_each depth device hs t'

unfoldable pub unhide : ℕ → DeviceTree → ℕ → Result DeviceTree
unfolding unhide_each
unhide depth t device = unhide_each depth device (reverse t.hidden) t

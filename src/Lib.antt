-- ===== src/Lib.antt =====
-- A model of the core of blivet, a library that plans and carries out changes to the storage of a
-- machine, with proofs about it.
--
-- A user's changes are actions (blivet/deviceaction.py) in a list (blivet/actionlist.py). The list
-- drops the actions that others make obsolete, and sorts the rest by what they require, with the
-- topological sort of blivet/tsort.py. An action that is added to the list is registered with the
-- device tree (blivet/devicetree.py) and applied to its device; one that is removed is cancelled in
-- both. For the partitions asked for, blivet/partitioning.py finds places, and grows them into the
-- space that is free; the space of volume groups is kept by blivet/devices/lvm.py, and the sizes of
-- arrays come from blivet/devicelibs/raid.py.
--
--   Prelude   tests, lists, integers and Python's exceptions, which the parts share
--   Raid      blivet/devicelibs/raid.py: Level (the levels), Sizes (get_size, get_space and what they
--             call), Lookup (names and RAIDLevels); Rounding, Capacity, Bounds, Space and
--             Lookup/Unique are proofs
--   Tsort     blivet/tsort.py: Graph (create_graph and tsort); the other modules are proofs about the
--             loop, the order and its completeness
--   Actions   blivet/deviceaction.py: Model (the classes and attributes), Requires, Obsoletes;
--             blivet/actionlist.py: List (add, remove, prune and sort), Find (find); Mutual, Prune,
--             Sort and Cycle are proofs
--   Changes   blivet/deviceaction.py: Action (the constructors, apply and cancel), on Device (the sizes
--             and the format of blivet/devices/storage.py and blivet/formats/__init__.py); Reverse is
--             proofs
--   DeviceTree  blivet/devicetree.py: Registry (adding, removing and finding devices), Register (what an
--             action does as it is registered or cancelled), over Store (the links of
--             blivet/devices/device.py, lib.py and storage.py); View is an abstract view of the tree, and
--             Creation fills `Tree` of Actions from it, and Session adds and removes actions of a list
--             together with the tree; Links, Changed, Refine, Cancel, Ancestors and
--             Refuse are proofs; Hide (hide and unhide); Hidden, Hiding and Unhide are proofs;
--             Remove (recursive_remove without actions); Removed, Removal and Recursive are proofs
--   Volumes   blivet/devices/lvm.py: Space (the space of a volume group and what its volumes take), Group
--             (_add_log_vol and _remove_log_vol), Resize (the setter of sizes); Accounting, Undo, Fail, Room
--             and SetSize are proofs
--   Growth    blivet/partitioning.py: Chunk (Request, Chunk and DiskChunk), Grow (reclaim and
--             grow_requests), Sets and Share (TotalSizeSet, SameSizeSet and manage_size_sets, on Grow);
--             Conserve, Limit, Room, Pool, Pass, Passes and Overdraw are proofs on growing, Kept, Managed,
--             Balanced, Known, Returns and Completes on the sets of devices
--   LvmGrowth blivet/partitioning.py: Compare (lv_compare), Request (LVRequest, VGChunk and ThinPoolChunk),
--             Grow and Thin (grow_lvm, with autoset_md_size of blivet/devices/lvm.py), on Volumes and
--             Growth; Safe, Before and Sorted are proofs
--   Placement blivet/partitioning.py: Compare (partition_compare, with compare of blivet/util.py), Disk
--             (get_next_partition_type and get_best_free_space_region); Antisymmetry, Slots and Best
--             are proofs
--   Keyslots  blivet/devicelibs/crypto.py: Contexts (KeyslotContext and KeyslotContextList); Order and
--             Keyfiles are proofs
--
-- Each has a module Tests with runs at concrete inputs. A method of a Python class is a function by
-- clauses on the class. An exception is a value `err` of `Result`. Objects that the source compares by
-- identity have ids.
--
-- Numbers are natural or, where the source may go below 0, integers (`ℤ` of Prelude.Int). A `Size` is
-- its number of bytes.
--
-- Loops: the loop of `tsort` runs on a bound of one round per root and edge, which is proved never
-- to be reached. The passes of `grow_requests` are counted by a parameter, and what is stated of
-- them holds for any number of passes; for a chunk that is no disk's, a number above the pool is
-- proved enough. `depends_on` and `ancestors` go up to a depth; a depth that is at least the rank
-- of a device is proved enough where ranks fall along parents. `hide` goes down a number of levels
-- of children; a number above the level of a device is proved enough where levels fall along
-- children. The rounds of `recursive_remove` are counted; as many as the tree has devices are
-- proved enough, also where levels fall.
--
-- Parameters: the remainder of a bytesize Size (`Bytesize`), the quotients of Decimals and of
-- floats (`Quotients`; `RoundsDown` says that they are rounded down, as they are for sizes within
-- the digits of a Decimal and the bits of a float), the quotient of a Size by a sector's size, the
-- rounding of sizes to extents and percentages of sizes (`Rounding` of Volumes, with `Aligns` for
-- multiples), the size of the metadata of a thin pool by libblockdev, parted's alignment
-- (`Alignment`), and whether a key file can be read. A name counts by its place in the natural
-- order. `depends_on` and `ancestors` of the devices (`Tree`) and the hooks of the device tree
-- (`Hooks`) are parameters of Actions; DeviceTree models those of the base classes.
--
-- Not modelled: `execute` of the actions, `recursive_remove` with actions, the processing of the
-- list, the mount options that a format gets with its device, the setters of sizes that classes of
-- devices other than volumes of LVM override, internal and cached volumes of LVM beyond the space
-- that they take, volumes of VDO, what the classes of partitions, of LVM, of btrfs and of Stratis
-- add to the hooks of a device, so also what `modparent` decides for them, the renaming of
-- partitions after parted, what formats do beyond their sizes, and all that calls libblockdev,
-- parted, udev or D-Bus.
pub mod Prelude
pub mod Raid
pub mod Tsort
pub mod Volumes
pub mod Actions
pub mod Growth
pub mod LvmGrowth
pub mod Placement
pub mod Changes
pub mod DeviceTree
pub mod Keyslots

-- ===== src/Raid/Lookup.antt =====
-- The names of the levels and the lookup of a level by a descriptor: `names`, `RAIDLevels` and
-- `get_raid_level` of blivet/devicelibs/raid.py.
pub mod Unique
use blivet.Prelude.{
  ℕ, ◌≡◌, refl, Bool, true, false, ◌&&◌, ◌||◌, not, Result, ok, err, raid_error, arith, String,
  str_eq, List, [], ◌∷◌, ◌++◌, any, all, if◌then◌else◌, ◌==◌, Option, none, some, length, ltb, keep,
  ◌>>=◌,
}
use blivet.Raid.Level.{
  Level, raid0, striped, raid1, raid4, raid5, raid6, raid10, container, linear, single, dup,
}

-- What identifies a level: a string, a number, or the level object itself. Any other object
-- matches no level.
pub data Descriptor : Type 0 where
  text : String → Descriptor
  number : ℕ → Descriptor
  object : Level → Descriptor
  other : Descriptor

-- An entry of a `names` list: all are strings but the number of a RAIDn level.
pub data Name : Type 0 where
  str : String → Name
  num : ℕ → Name

abbrev index : Level → ℕ
index raid0 = 0
index striped = 1
index raid1 = 2
index raid4 = 3
index raid5 = 4
index raid6 = 5
index raid10 = 6
index container = 7
index linear = 8
index single = 9
index dup = 10

-- `is` on the singletons.
abbrev pub same_level : Level → Level → Bool
same_level a b = index a == index b

-- `names` of class RAIDn: the name, the nickname and the names made from the digits.
abbrev raidn_names : String → String → Option String → String → ℕ → List Name
raidn_names name upper none level n = str name ∷ str upper ∷ str level ∷ num n ∷ []
raidn_names name upper (some nick) level n =
    str name ∷ str nick ∷ str upper ∷ str level ∷ num n ∷ []

unfoldable pub names : Level → List Name
names raid0 = raidn_names "raid0" "RAID0" (some "stripe") "0" 0
names striped = str "striped" ∷ []
names raid1 = raidn_names "raid1" "RAID1" (some "mirror") "1" 1
names raid4 = raidn_names "raid4" "RAID4" none "4" 4
names raid5 = raidn_names "raid5" "RAID5" none "5" 5
names raid6 = raidn_names "raid6" "RAID6" none "6" 6
names raid10 = raidn_names "raid10" "RAID10" none "10" 10
names container = str "container" ∷ []
names linear = str "linear" ∷ str "jbod" ∷ []
names single = str "single" ∷ []
names dup = str "dup" ∷ []

unfoldable pub canonical_name : Level → Name
canonical_name raid0 = str "raid0"
canonical_name striped = str "striped"
canonical_name raid1 = str "raid1"
canonical_name raid4 = str "raid4"
canonical_name raid5 = str "raid5"
canonical_name raid6 = str "raid6"
canonical_name raid10 = str "raid10"
canonical_name container = str "container"
canonical_name linear = str "linear"
canonical_name single = str "single"
canonical_name dup = str "dup"

abbrev same_name : Name → Name → Bool
same_name (str a) (str b) = str_eq a b
same_name (num a) (num b) = a == b
same_name _ _ = false

-- `descriptor in level.names or descriptor is level`
unfoldable pub matches : Descriptor → Level → Bool
matches (text s) level = any (same_name (str s)) (names level)
matches (number n) level = any (same_name (num n)) (names level)
matches (object l) level = same_level l level
matches other level = false

-- `raid_level`: the loop over the set of levels, in the order in which the set is iterated.
unfoldable pub raid_level : List Level → Descriptor → Result Level
raid_level [] d = err raid_error
raid_level (level ∷ levels) d = if matches d level then ok level else raid_level levels d

-- `is_raid_level`
unfoldable pub is_raid_level : Level → Bool
is_raid_level level =
    ltb 0 (length (names level)) && any (same_name (canonical_name level)) (names level)

-- `add_raid_level`: a set keeps one copy.
unfoldable pub add_raid_level : List Level → Level → Result (List Level)
add_raid_level levels level =
    if not (is_raid_level level)
    then err raid_error
    else if any (same_level level) levels
    then ok levels
    else ok (levels ++ level ∷ [])

-- The levels that the module registers, in the order in which it does.
abbrev pub all_levels : List Level
all_levels =
    raid0 ∷ striped ∷ raid1 ∷ raid4 ∷ raid5 ∷ raid6 ∷ raid10 ∷ container ∷ linear ∷ single ∷ dup
    ∷ []

-- `level in l.names`: a level object is in no list of names.
abbrev named : Descriptor → Level → Bool
named (text s) level = any (same_name (str s)) (names level)
named (number n) level = any (same_name (num n)) (names level)
named d level = false

-- `RAIDLevels.__init__`: each descriptor adds the one standard level that has it as a name.
add_standard : List Level → List Level → Result (List Level)
add_standard levels (l ∷ []) = add_raid_level levels l
add_standard levels _ = err raid_error

init_from : List Level → List Descriptor → Result (List Level)
unfolding add_standard
init_from levels [] = ok levels
init_from levels (d ∷ ds) = do
  levels' ← add_standard levels (keep (named d) all_levels)
  init_from levels' ds

unfoldable pub init : List Descriptor → Result (List Level)
unfolding init_from
init ds = init_from [] ds

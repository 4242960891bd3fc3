-- ===== src/Raid/Sizes.antt =====
-- The size methods of blivet/devicelibs/raid.py. A `Size` is its number of bytes. The remainder of
-- a `Size` is bytesize's: `Bytesize` states what is relied on, for a size that is not negative.
use blivet.Prelude.{
  ℕ, zero, suc, ◌-◌, ◌*◌, ◌+◌, ◌/◌, ◌%◌, ◌<◌, ◌≡◌, Option, none, some, Result, ok, err, raid_error,
  attribute_error, type_error, zero_division_error, ℤ, pos, negsuc, ◌-ℤ◌, ◌+ℤ◌, List, [], ◌∷◌,
  length, sum_of, min, ◌>>=◌, ◌>>◌,
}
use blivet.Raid.Level.{
  Level, raid0, striped, raid1, raid4, raid5, raid6, raid10, container, linear, single, dup,
  check_members,
}

pub record Bytesize : Type 0 where
  pub mod_size : ℤ → ℕ → ℤ
  pub mod_size_nonneg : (a c : ℕ) → 0 < c → mod_size (pos a) c ≡ pos (a % c)

-- Python's `//` by a positive number.
unfoldable pub div_up : ℕ → ℕ → ℕ
div_up a b = (a + (b - 1)) / b

-- `_get_base_member_size` of each subclass of RAIDn.
unfoldable pub base_member_size : Level → ℕ → ℕ → Result ℕ
base_member_size raid0 size member_count = ok (div_up size member_count)
base_member_size striped size member_count = ok (div_up size member_count)
base_member_size raid1 size member_count = ok size
base_member_size raid4 size member_count = ok (div_up size (member_count - 1))
base_member_size raid5 size member_count = ok (div_up size (member_count - 1))
base_member_size raid6 size member_count = ok (div_up size (member_count - 2))
base_member_size raid10 size member_count = ok (div_up size (member_count / 2))
base_member_size _ size member_count = err attribute_error

-- The negative size is refused after the number of members is checked.
unfoldable pub get_base_member_size : Level → ℤ → ℕ → Result ℕ
get_base_member_size container size member_count = err attribute_error
get_base_member_size linear size member_count = err attribute_error
get_base_member_size single size member_count = err attribute_error
get_base_member_size dup size member_count = err attribute_error
get_base_member_size level (pos size) member_count = do
  check_members level member_count
  base_member_size level size member_count
get_base_member_size level (negsuc _) member_count = do
  check_members level member_count
  err raid_error

-- `_get_net_array_size` of each subclass of RAIDn.
unfoldable pub net_array_size : Level → ℕ → ℕ → Result ℕ
net_array_size raid0 member_count smallest = ok (smallest * member_count)
net_array_size striped member_count smallest = ok (smallest * member_count)
net_array_size raid1 member_count smallest = ok smallest
net_array_size raid4 member_count smallest = ok (smallest * (member_count - 1))
net_array_size raid5 member_count smallest = ok (smallest * (member_count - 1))
net_array_size raid6 member_count smallest = ok (smallest * (member_count - 2))
net_array_size raid10 member_count smallest = ok (smallest * (member_count / 2))
net_array_size _ member_count smallest = err attribute_error

unfoldable pub get_net_array_size : Level → ℕ → ℤ → Result ℕ
get_net_array_size container member_count smallest = err attribute_error
get_net_array_size linear member_count smallest = err attribute_error
get_net_array_size single member_count smallest = err attribute_error
get_net_array_size dup member_count smallest = err attribute_error
get_net_array_size level member_count (pos smallest) = do
  check_members level member_count
  net_array_size level member_count smallest
get_net_array_size level member_count (negsuc _) = do
  check_members level member_count
  err raid_error

-- `_trim`. The two levels that need no whole chunks give the size back.
unfoldable pub trim : Bytesize → Level → ℤ → ℕ → Result ℤ
trim ops raid1 size chunk_size = ok size
trim ops raid10 size chunk_size = ok size
trim ops container size chunk_size = err attribute_error
trim ops linear size chunk_size = err attribute_error
trim ops single size chunk_size = err attribute_error
trim ops dup size chunk_size = err attribute_error
trim ops level size chunk_size = ok (size -ℤ ops.mod_size size chunk_size)

-- `_pad`. `size % chunk_size` raises at an empty chunk, except in RAID1, which does not divide.
unfoldable pub pad : Level → ℕ → ℕ → Result ℕ
pad raid1 size chunk_size = ok size
pad container size chunk_size = err attribute_error
pad linear size chunk_size = err attribute_error
pad single size chunk_size = err attribute_error
pad dup size chunk_size = err attribute_error
pad level size zero = err zero_division_error
pad level size (suc c) = ok (size + (suc c - size % suc c) % suc c)

-- The smallest member of a list that is not empty.
abbrev pub min_size : ℕ → List ℕ → ℕ
min_size m [] = m
min_size m (x ∷ xs) = min m (min_size x xs)

abbrev pub or_length : Option ℕ → List ℕ → ℕ
or_length none sizes = length sizes
or_length (some n) sizes = n

module _ (ops : Bytesize) where
  -- The end of `get_size`, once the arguments are accepted.
  unfoldable pub size_of_smallest : Level → ℕ → ℕ → ℕ → (ℤ → ℕ) → Result ℤ
  size_of_smallest level num_members smallest chunk_size superblock_size = do
    min_data_size ← trim ops level (pos smallest -ℤ pos (superblock_size (pos smallest))) chunk_size
    t ← get_net_array_size level num_members min_data_size
    ok (pos t)

  -- `get_size`. RAID1 overrides it without the two checks: there a superblock function of None
  -- is called, which raises TypeError, and the chunk is not read.
  unfoldable pub get_size : Level → List ℕ → Option ℕ → Option ℕ → Option (ℤ → ℕ) → Result ℤ
  get_size container sizes num_members chunk_size superblock_size = ok (pos (sum_of (λ s. s) sizes))
  get_size dup sizes num_members chunk_size superblock_size = err attribute_error
  get_size level [] num_members chunk_size superblock_size = ok (pos 0)
  get_size linear (s ∷ sizes) num_members chunk_size none = err raid_error
  get_size linear (s ∷ sizes) num_members chunk_size (some superblock_size) =
      let total = sum_of (λ x. x) (s ∷ sizes) in
      ok (pos total -ℤ pos (length (s ∷ sizes) * superblock_size (pos total)))
  get_size single (s ∷ sizes) num_members chunk_size none = err raid_error
  get_size single (s ∷ sizes) num_members chunk_size (some superblock_size) =
      let total = sum_of (λ x. x) (s ∷ sizes) in
      ok (pos total -ℤ pos (length (s ∷ sizes) * superblock_size (pos total)))
  get_size raid1 (s ∷ sizes) num_members chunk_size none = err type_error
  get_size raid1 (s ∷ sizes) num_members chunk_size (some superblock_size) =
      size_of_smallest raid1 (or_length num_members (s ∷ sizes)) (min_size s sizes) 0
        superblock_size
  get_size level (s ∷ sizes) num_members none superblock_size = err raid_error
  get_size level (s ∷ sizes) num_members (some zero) superblock_size = err raid_error
  get_size level (s ∷ sizes) num_members (some (suc c)) none = err raid_error
  get_size level (s ∷ sizes) num_members (some (suc c)) (some superblock_size) =
      size_of_smallest level (or_length num_members (s ∷ sizes)) (min_size s sizes) (suc c)
        superblock_size

-- `if chunk_size is not None: size_per_member = self._pad(size_per_member, chunk_size)`
abbrev pub pad_if : Level → ℕ → Option ℕ → Result ℕ
pad_if level size none = ok size
pad_if level size (some c) = pad level size c

unfoldable pub get_space : Level → ℤ → ℕ → Option ℕ → Option (ℤ → ℕ) → Result ℤ
get_space container size num_members chunk_size superblock_size = ok size
get_space dup size num_members chunk_size superblock_size = err attribute_error
get_space level size num_members chunk_size none = err raid_error
get_space linear size num_members chunk_size (some superblock_size) =
    ok (size +ℤ pos (num_members * superblock_size size))
get_space single size num_members chunk_size (some superblock_size) =
    ok (size +ℤ pos (num_members * superblock_size size))
get_space level size num_members chunk_size (some superblock_size) = do
  base ← get_base_member_size level size num_members
  per_member ← pad_if level (base + superblock_size size) chunk_size
  ok (pos (per_member * num_members))

-- ===== src/Raid/Rounding.antt =====
-- `_trim` and `_pad` of blivet/devicelibs/raid.py: rounding to whole chunks.
use native.Mathlib.Nat.{div-add-mod, mod-lt, mod-le, mod_self, mod-eq_of_lt, mul-mod_left}
use blivet.Prelude.{
  ℕ, zero, suc, ◌-◌, ◌*◌, ◌+◌, ◌/◌, ◌%◌, ◌<◌, ◌≤◌, ◌≡◌, ok, arith, pos, pos-sub, Bool, true, false,
  if◌then◌else◌, ◌==◌, Bool-cases, inl, inr,
}
use blivet.Raid.Level.{Level, raid0, striped, raid4, raid5, raid6, raid10}
use blivet.Raid.Sizes.{Bytesize, trim, pad}

-- The levels whose size is a whole number of chunks.
abbrev pub rounds_down : Level → Bool
rounds_down raid0 = true
rounds_down striped = true
rounds_down raid4 = true
rounds_down raid5 = true
rounds_down raid6 = true
rounds_down _ = false

abbrev pub rounds_up : Level → Bool
rounds_up raid10 = true
rounds_up level = rounds_down level

-- The multiple of `c` at or below `a`.
abbrev pub floor_to : ℕ → ℕ → ℕ
floor_to a c = a / c * c

pub floor_to_bounds : (a c : ℕ) → 0 < c → (floor_to a c ≤ a) × (a < floor_to a c + c)
floor_to_bounds a c h = grind (arith, div-add-mod a c, mod-lt a h)

sub-mod : (a c : ℕ) → a - a % c ≡ floor_to a c
sub-mod a c = grind (arith, div-add-mod a c)

-- Levels that work in chunks cut a size down to the multiple of the chunk at or below it; the size
-- is not negative, and the chunk is not empty.
pub trim-floor_to :
    (ops : Bytesize) (level : Level) (a c : ℕ)
    → rounds_down level ≡ true
    → 0 < c
    → trim ops level (pos a) c ≡ ok (pos (floor_to a c))
unfolding trim
trim-floor_to ops level a c r h =
    ground (arith, ops.mod_size_nonneg a c, pos-sub a (a % c), mod-le a c, sub-mod a c)

-- What `_pad` adds, in the two cases of the remainder.
padding : (a c : ℕ) → 0 < c → (c - a % c) % c ≡ (if a % c == 0 then 0 else c - a % c)
padding a c h = elim (Bool-cases (a % c == 0)) [
  | inl e ↦ rw e (let z : c - a % c ≡ c = ground arith in rw z (mod_self c))
  | inr e ↦ rw e (mod-eq_of_lt (ground (arith, mod-lt a h)))
]

padded_mod : (a c : ℕ) → 0 < c → (a + (c - a % c) % c) % c ≡ 0
padded_mod a c h = elim (Bool-cases (a % c == 0)) [
  | inl e ↦ rw (padding a c h, e) (ground arith)
  | inr e ↦
      rw (padding a c h, e)
        (let q : a + (c - a % c) ≡ (a / c + 1) * c = grind (arith, div-add-mod a c, mod-lt a h) in
          rw q (mul-mod_left (a / c + 1) c))
]

-- Levels that work in chunks fill a size up to the least multiple of the chunk that is not below
-- it; the chunk is not empty.
pub pad_least :
    (level : Level) (a c : ℕ)
    → rounds_up level ≡ true
    → 0 < c
    → (t : ℕ) × (pad level a c ≡ ok t) × (a ≤ t) × (t < a + c) × (t % c ≡ 0)
unfolding pad
pad_least level a zero r h = elim h [ ]
pad_least level a (suc k) r h = (
  a + (suc k - a % suc k) % suc k,
  ground arith,
  omega arith,
  omega (arith, mod-lt (suc k - a % suc k) h),
  padded_mod a (suc k) h,
)

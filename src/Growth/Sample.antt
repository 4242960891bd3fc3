-- ===== src/Growth/Sample.antt =====
-- Exact quotients, for the runs of requests.
use native.Mathlib.Nat.{div-mul-le_self}
use blivet.Prelude.{
  ℕ, zero, suc, ◌*◌, ◌/◌, ◌≡◌, ◌≤◌, ◌<◌, refl, sym, ok-injective, Result, ok, err,
  zero_division_error, arith, ℤ, pos,
}
use blivet.Growth.Grow.{Quotients}
use blivet.Growth.Pool.{RoundsDown}

-- Exact quotients, cut to integers.
abbrev pub exact_share : ℤ → ℤ → ℤ → Result ℤ
exact_share (pos base) (pos (suc total_base)) (pos pool) = ok (pos (base * pool / suc total_base))
exact_share _ (pos zero) _ = err zero_division_error
exact_share _ _ _ = ok (pos 0)

abbrev pub exact_portion : ℤ → ℕ → ℤ
exact_portion (pos pool) (suc n) = pos (pool / suc n)
exact_portion _ _ = pos 0

abbrev pub exact : Quotients
exact = record { share = exact_share; portion = exact_portion }

pub exact-RoundsDown : RoundsDown exact
exact-RoundsDown = record { share_le = share_le; portion_le = portion_le }
  where
    share_le :
        (base total_base pool : ℕ) (growth : ℤ)
        → exact_share (pos base) (pos total_base) (pos pool) ≡ ok growth
        → (k : ℕ) × (growth ≡ pos k) × (k * total_base ≤ base * pool) × (0 < total_base)
    share_le base zero pool growth h = cc
    share_le base (suc n) pool growth h = (
      base * pool / suc n,
      sym (ok-injective h),
      div-mul-le_self (base * pool) (suc n),
      omega arith,
    )

    portion_le :
        (pool n : ℕ) → 0 < n → (k : ℕ) × (exact_portion (pos pool) n ≡ pos k) × (k * n ≤ pool)
    portion_le pool zero h = elim h [ ]
    portion_le pool (suc n) h = (pool / suc n, refl, div-mul-le_self pool (suc n))

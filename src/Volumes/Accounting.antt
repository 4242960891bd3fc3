-- ===== src/Volumes/Accounting.antt =====
-- Adding and removing a volume of a group, in blivet/devices/lvm.py: what the PVs lose and get back.
use blivet.Prelude.{
  ℕ, ◌+◌, ◌-◌, ◌≤◌, ◌≡◌, refl, sym, ap, ◌∙◌, subst, fun_ext, false, Option, none, some,
  Option-cases, ltb, ◌==◌, ==_iff, ==_refl, if◌then◌else◌, List, [], ◌∷◌, arith, inl, inr,
  Bool-cases, All,
}
use blivet.Volumes.Space.{PvSpec}
use blivet.Volumes.Group.{Outcome, returned, raised, set_free, allocate, release}

-- What the specifications take of a PV.
abbrev pub owed : List PvSpec → ℕ → ℕ
owed [] j = 0
owed (spec ∷ specs) j = (if spec.pv == j then spec.size else 0) + owed specs j

abbrev pub give : ℕ → Option ℕ → Option ℕ
give n none = none
give n (some m) = some (m + n)

give_sum : (a b : ℕ) (o : Option ℕ) → give (a + b) o ≡ give a (give b o)
give_sum a b none = refl
give_sum a b (some m) = ap some (omega arith)

pub give_zero : (o : Option ℕ) → give 0 o ≡ o
give_zero none = refl
give_zero (some m) = ap some (omega arith)

unfoldable pub state_of {ℓ} : {S : Type ℓ} → Outcome S → S
state_of (returned s) = s
state_of (raised e s) = s

pub returned-injective {ℓ} : {S : Type ℓ} {s t : S} → returned s ≡ returned t → s ≡ t
unfolding state_of
returned-injective e = ap state_of e

set_free-give :
    (free : ℕ → Option ℕ) (pv n m j : ℕ)
    → free pv ≡ some m
    → n ≤ m
    → give (if pv == j then n else 0) (set_free free pv (m - n) j) ≡ free j
set_free-give free pv n m j found le = elim (Bool-cases (pv == j)) [
  | inl same ↦
      subst (λ i. give (if pv == i then n else 0) (set_free free pv (m - n) i) ≡ free i)
        ((==_iff pv j).0 same) (rw (==_refl pv, found) (ap some (omega arith)))
  | inr other ↦
      let other' : (j == pv) ≡ false = ground (arith, other) in
      rw (other, other') (give_zero (free j))
]

-- An allocation that returns took the first specification from its PV, which had the space.
allocate-cons :
    (spec : PvSpec) (specs : List PvSpec) (free : ℕ → Option ℕ) {free' : ℕ → Option ℕ}
    → allocate (spec ∷ specs) free ≡ returned free'
    → (n : ℕ) × (free spec.pv ≡ some n)
      × (spec.size ≤ n)
      × (allocate specs (set_free free spec.pv (n - spec.size)) ≡ returned free')
unfolding allocate
allocate-cons spec specs free h = elim (Option-cases (free spec.pv)) [
  | inl missing ↦ let h' = rw (missing, allocate) at h in cc
  | inr (n, found) ↦ elim (Bool-cases (ltb n spec.size)) [
    | inl short ↦ let h' = rw (found, allocate, short) at h in cc
    | inr enough ↦ (n, found, ground (arith, enough), rw (found, allocate, enough) at h)
  ]
]

-- What a PV has after an allocation, with what was taken, is what it had.
pub allocate-owed :
    (specs : List PvSpec) (free : ℕ → Option ℕ) {free' : ℕ → Option ℕ}
    → allocate specs free ≡ returned free'
    → (j : ℕ) → give (owed specs j) (free' j) ≡ free j
unfolding allocate
allocate-owed [] free {free'} h j =
    give_zero (free' j) ∙ ap (λ (f : ℕ → Option ℕ). f j) (sym (returned-injective h))
allocate-owed (spec ∷ specs) free {free'} h j =
    let (n, found, le, rest) = allocate-cons spec specs free h in
    let later = allocate-owed specs (set_free free spec.pv (n - spec.size)) rest j in
    give_sum (if spec.pv == j then spec.size else 0) (owed specs j) (free' j)
    ∙ ap (give (if spec.pv == j then spec.size else 0)) later
    ∙ set_free-give free spec.pv spec.size n j found le

-- Every PV of the specifications has a number.
AllKnown : List PvSpec → (ℕ → Option ℕ) → Type 0
AllKnown specs free = All (λ (spec : PvSpec). (n : ℕ) × (free spec.pv ≡ some n)) specs

give-some : (a : ℕ) (o : Option ℕ) (n : ℕ) → give a o ≡ some n → (m : ℕ) × (o ≡ some m)
give-some a none n h = cc
give-some a (some m) n h = (m, refl)

allocate-AllKnown :
    (specs : List PvSpec) (free : ℕ → Option ℕ) {free' : ℕ → Option ℕ}
    → allocate specs free ≡ returned free'
    → AllKnown specs free'
unfolding AllKnown
allocate-AllKnown [] free h = tt
allocate-AllKnown (spec ∷ specs) free {free'} h =
    let (n, found, le, rest) = allocate-cons spec specs free h in
    (
      give-some (owed (spec ∷ specs) spec.pv) (free' spec.pv) n
          (allocate-owed (spec ∷ specs) free h spec.pv ∙ found),
      allocate-AllKnown specs (set_free free spec.pv (n - spec.size)) rest,
    )

set_free-add :
    (free : ℕ → Option ℕ) (pv n m j : ℕ)
    → free pv ≡ some m
    → set_free free pv (m + n) j ≡ give (if pv == j then n else 0) (free j)
set_free-add free pv n m j found = elim (Bool-cases (pv == j)) [
  | inl same ↦
      subst (λ i. set_free free pv (m + n) i ≡ give (if pv == i then n else 0) (free i))
        ((==_iff pv j).0 same) (rw (==_refl pv, found) refl)
  | inr other ↦
      let other' : (j == pv) ≡ false = ground (arith, other) in
      rw (other, other') (sym (give_zero (free j)))
]

AllKnown-set_free :
    (specs : List PvSpec) (free : ℕ → Option ℕ) (pv n : ℕ)
    → AllKnown specs free
    → AllKnown specs (set_free free pv n)
unfolding AllKnown
AllKnown-set_free [] free pv n h = tt
AllKnown-set_free (spec ∷ specs) free pv n h = (
  elim (Bool-cases (spec.pv == pv)) [
    | inl same ↦ (n, rw same refl)
    | inr other ↦ (h.0.0, rw other h.0.1)
  ],
  AllKnown-set_free specs free pv n h.1,
)

-- A release of known PVs returns, and gives each what the specifications took.
release-owed :
    (specs : List PvSpec) (free : ℕ → Option ℕ)
    → AllKnown specs free
    → release specs free ≡ returned (λ j. give (owed specs j) (free j))
unfolding release AllKnown
release-owed [] free h = ap returned (fun_ext (λ j. sym (give_zero (free j))))
release-owed (spec ∷ specs) free ((n, found), h) =
    let later =
      release-owed specs (set_free free spec.pv (n + spec.size))
        (AllKnown-set_free specs free spec.pv (n + spec.size) h) in
    rw (found, release)
      (later
        ∙ ap returned (
            fun_ext (λ j.
              ap (give (owed specs j)) (set_free-add free spec.pv spec.size n j found)
              ∙ sym (give_sum (owed specs j) (if spec.pv == j then spec.size else 0) (free j))
              ∙ ap (λ a. give a (free j)) (omega arith))))

pub release-allocate :
    (specs : List PvSpec) (free : ℕ → Option ℕ) {free' : ℕ → Option ℕ}
    → allocate specs free ≡ returned free'
    → release specs free' ≡ returned free
release-allocate specs free {free'} h =
    release-owed specs free' (allocate-AllKnown specs free h)
    ∙ ap returned (fun_ext (allocate-owed specs free h))

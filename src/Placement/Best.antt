-- ===== src/Placement/Best.antt =====
-- `get_best_free_space_region` of blivet/partitioning.py finds the best of the regions that suit.
use blivet.Prelude.{
  ◌≡◌, refl, sym, ◌∙◌, ap, ◌⊎◌, true, false, ◌&&◌, Option, none, some, arith, inl, inr, List, [],
  ◌∷◌, Bool-cases, Option-cases, subst, if◌then◌else◌,
}
use blivet.Placement.Disk.{
  Disk, Geometry, Alignment, Wanted, align_region, suits, beats, beats_best, take_region, best_of,
  get_best_free_space_region,
}

value_or : Geometry → Option Geometry → Geometry
value_or d none = d
value_or d (some g) = g

some_injective : {a b : Geometry} → some a ≡ some b → a ≡ b
unfolding value_or
some_injective {a} e = ap (value_or a) e

module _ (disk : Disk) (w : Wanted) (alignment : Alignment) where
  -- A free region, from its first aligned sector on, that passes the tests.
  abbrev pub IsCandidate : Geometry → List Geometry → Type 0
  IsCandidate r [] = ⊥
  IsCandidate r (g ∷ free) =
      ((align_region alignment w g ≡ some r) × (suits disk w r ≡ true)) ⊎ IsCandidate r free

  -- What the loop found, after some regions.
  pub record IsBest (free : List Geometry) (first found : Option Geometry) : Type 0 where
    pub from : (g : Geometry) → found ≡ some g → (first ≡ some g) ⊎ IsCandidate g free
    pub kept :
        (b : Geometry) → first ≡ some b → (g : Geometry) × (found ≡ some g) × (beats w b g ≡ false)
    pub best :
        (r : Geometry)
        → IsCandidate r free
        → (g : Geometry) × (found ≡ some g) × (beats w r g ≡ false)

  beats_trans : (a b c : Geometry) → beats w a b ≡ false → beats w b c ≡ false → beats w a c ≡ false
  beats_trans a b c h k = ground arith

  beats_old : (a b : Geometry) → beats w a b ≡ true → beats w b a ≡ false
  beats_old a b h = ground arith

  beats_self : (a : Geometry) → beats w a a ≡ false
  beats_self a = ground arith

  unchanged-IsBest :
      (g : Geometry) (first : Option Geometry)
      → ((r : Geometry)
          → align_region alignment w g ≡ some r
          → suits disk w r ≡ true
          → (b : Geometry) × (first ≡ some b) × (beats w r b ≡ false))
      → IsBest (g ∷ []) first first
  unchanged-IsBest g first h = record {
    from = λ x e. inl e;
    kept = λ b e. (b, e, beats_self b);
    best = λ r c. elim c [ inl (at, ok_r) ↦ h r at ok_r | inr never ↦ elim never [ ] ];
  }

  replaced-IsBest :
      (g r : Geometry) (first : Option Geometry)
      → align_region alignment w g ≡ some r
      → suits disk w r ≡ true
      → beats_best w r first ≡ true
      → IsBest (g ∷ []) first (some r)
  replaced-IsBest g r first at fits better = record {
    from = λ x e. inr (inl (at ∙ e, subst (λ y. suits disk w y ≡ true) (some_injective e) fits));
    kept = λ b e. (r, refl, beats_old r b (rw e at better));
    best = λ x c. elim c [
      | inl (at_x, _) ↦ (
        r,
        refl,
        subst (λ y. beats w y r ≡ false) (some_injective (sym at ∙ at_x)) (beats_self r),
      )
      | inr never ↦ elim never [ ]
    ];
  }

  -- A region that suits and is not taken does not beat the best.
  left_behind :
      (r : Geometry) (first : Option Geometry)
      → suits disk w r ≡ true
      → (suits disk w r && beats_best w r first) ≡ false
      → (b : Geometry) × (first ≡ some b) × (beats w r b ≡ false)
  left_behind r none fits h = absurd (ground (arith, fits, h))
  left_behind r (some b) fits h = (b, refl, ground (arith, fits, h))

  -- One round, of a loop that does not break.
  take_region-IsBest :
      w.boot ≡ false
      → (g : Geometry) (first : Option Geometry)
      → let (next, breaks) = take_region disk w (align_region alignment w g) first in
        (breaks ≡ false) × IsBest (g ∷ []) first next
  take_region-IsBest calm g first = elim (Option-cases (align_region alignment w g)) [
    | inl skipped ↦
        rw skipped (refl, unchanged-IsBest g first (λ r at. absurd (ground (arith, skipped, at))))
    | inr (r, at) ↦ rw at (elim (Bool-cases (suits disk w r && beats_best w r first)) [
      | inl takes ↦ rw takes (calm, replaced-IsBest g r first at (ground arith) (ground arith))
      | inr leaves ↦ rw leaves (
        refl,
        unchanged-IsBest g first (λ x at_x fits.
            let same = some_injective (sym at_x ∙ at) in
            subst (λ y. (b : Geometry) × (first ≡ some b) × (beats w y b ≡ false)) (sym same)
              (left_behind r first (subst (λ y. suits disk w y ≡ true) same fits) leaves)),
      )
    ])
  ]

  after_round :
      {free : List Geometry} {next found : Option Geometry} (b : Geometry)
      → (n : Geometry) × (next ≡ some n) × (beats w b n ≡ false)
      → IsBest free next found
      → (g : Geometry) × (found ≡ some g) × (beats w b g ≡ false)
  after_round b (n, e, worse) t =
      let (g, f, worse') = t.kept n e in (g, f, beats_trans b n g worse worse')

  -- The rounds compose.
  IsBest-cons :
      (g : Geometry) (free : List Geometry) (first next found : Option Geometry)
      → IsBest (g ∷ []) first next
      → IsBest free next found
      → IsBest (g ∷ free) first found
  IsBest-cons g free first next found s t = record {
    from = λ x e. elim (t.from x e) [
      | inr later ↦ inr (inr later)
      | inl before ↦ elim (s.from x before) [
        | inl old ↦ inl old
        | inr (inl here) ↦ inr (inl here)
        | inr (inr never) ↦ elim never [ ]
      ]
    ];
    kept = λ b e. after_round b (s.kept b e) t;
    best = λ r c. elim c [
      | inl here ↦ after_round r (s.best r (inl here)) t
      | inr later ↦ t.best r later
    ];
  }

  best_of-IsBest :
      w.boot ≡ false
      → (free : List Geometry) (first : Option Geometry)
      → IsBest free first (best_of disk w alignment free first)
  unfolding best_of
  best_of-IsBest calm [] first = record {
    from = λ g e. inl e;
    kept = λ b e. (b, e, beats_self b);
    best = λ r never. elim never [ ];
  }
  best_of-IsBest calm (g ∷ free) first =
      let (next, breaks) = take_region disk w (align_region alignment w g) first in
      let (goes_on, round) = take_region-IsBest calm g first in
      rw (best_of, goes_on)
        (IsBest-cons g free first next (best_of disk w alignment free next) round
          (best_of-IsBest calm free next))

  -- For a partition that is not to boot the machine, the region found is one of the disk's free
  -- regions that pass every test, or the best from before; and no such region, nor the best from
  -- before, beats it: it is a longest one for a request that grows or an extended partition, and a
  -- shortest one otherwise. If there is any, one is found.
  pub get_best_free_space_region-IsBest :
      (best_free : Option Geometry)
      → w.boot ≡ false
      → IsBest disk.free best_free (get_best_free_space_region disk w alignment best_free)
  unfolding get_best_free_space_region
  get_best_free_space_region-IsBest best_free calm = best_of-IsBest calm disk.free best_free

-- The first free region that passes the tests.
abbrev pub first_suiting : Disk → Wanted → Alignment → List Geometry → Option Geometry
first_suiting disk w alignment [] = none
first_suiting disk w alignment (g ∷ free) =
    let rest = first_suiting disk w alignment free in
    elim (align_region alignment w g) [
      | none ↦ rest
      | some r ↦ if suits disk w r then some r else rest
    ]

-- A round of a loop that breaks at the first region that it takes.
first_round :
    (disk : Disk) (w : Wanted) (alignment : Alignment) (free : List Geometry) (o : Option Geometry)
    → w.boot ≡ true
    → best_of disk w alignment free none ≡ first_suiting disk w alignment free
    → let (next, breaks) = take_region disk w o none in
      (elim breaks [ true ↦ next | false ↦ best_of disk w alignment free next ]) ≡ (elim o [
        | none ↦ first_suiting disk w alignment free
        | some r ↦ if suits disk w r then some r else first_suiting disk w alignment free
      ])
first_round disk w alignment free none boots rest = rest
first_round disk w alignment free (some r) boots rest = elim (Bool-cases (suits disk w r)) [
  | inl fits ↦
      let taken : take_region disk w (some r) none ≡ (some r, true) = rw (fits, boots) in
      let chosen : (if suits disk w r then some r else first_suiting disk w alignment free)
          ≡ some r =
        rw fits in
      rw (taken, chosen) (ap (λ x. x.0) taken)
  | inr unfit ↦
      let passed : take_region disk w (some r) none ≡ (none, false) = rw unfit in
      rw (passed, unfit) rest
]

best_of-first_suiting :
    (disk : Disk) (w : Wanted) (alignment : Alignment) (free : List Geometry)
    → w.boot ≡ true
    → best_of disk w alignment free none ≡ first_suiting disk w alignment free
unfolding best_of
best_of-first_suiting disk w alignment [] boots = refl
best_of-first_suiting disk w alignment (g ∷ free) boots =
    first_round disk w alignment free (align_region alignment w g) boots
      (best_of-first_suiting disk w alignment free boots)

-- For a partition that is to boot the machine, with no best region from before, the region found is
-- the first free region that passes every test.
pub get_best_free_space_region-first_suiting :
    (disk : Disk) (w : Wanted) (alignment : Alignment)
    → w.boot ≡ true
    → get_best_free_space_region disk w alignment none ≡ first_suiting disk w alignment disk.free
unfolding get_best_free_space_region
get_best_free_space_region-first_suiting disk w alignment boots =
    best_of-first_suiting disk w alignment disk.free boots

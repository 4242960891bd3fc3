-- ===== src/Growth/Known.antt =====
-- The requests of devices in the chunks of `manage_size_sets` of blivet/partitioning.py: where they are found,
-- and that the sets keep them.
use blivet.Prelude.{
  ℕ, suc, ◌+◌, ◌≡◌, refl, sym, ap, ◌∙◌, subst, true, false, some, Option-cases, ok, arith, ℤ, ◌+ℤ◌,
  ◌-ℤ◌, ◌≤ℤ◌, ltb_ℤ, ◌==◌, if◌then◌else◌, List, [], ◌∷◌, ◌++◌, map, any, elem, Bool-cases, inl, inr,
}
use mathlib.Core.Option.{some-injective}
use blivet.Growth.Chunk.{Request, Chunk}
use blivet.Growth.Grow.{reclaim, is_skipped}
use blivet.Growth.Sets.{locate, split_request, reclaim_in, reclaim_from, close_request, close}

abbrev pub request_ids : List Request → List ℕ
request_ids rs = map (λ (r : Request). r.id) rs

abbrev pub device_ids : List Chunk → List (List ℕ)
device_ids cs = map (λ (c : Chunk). request_ids c.requests) cs

-- A chunk has a request of the device.
abbrev pub Known : ℕ → List Chunk → Type 0
Known d cs = any (elem d) (device_ids cs) ≡ true

-- What `locate` finds.
abbrev pub Found : Type 0
Found = ℕ × Chunk × Request

split_request-known :
    (d : ℕ) (before rs : List Request)
    → elem d (request_ids rs) ≡ true
    → (x : List Request × Request × List Request) × (split_request d before rs ≡ some x)
split_request-known d before [] h = cc
split_request-known d before (r ∷ rs) h = elim (Bool-cases (r.id == d)) [
  | inl here ↦ ((before, r, rs), rw here refl)
  | inr past ↦
      let (x, e) = split_request-known d (before ++ r ∷ []) rs (ground (arith, past)) in
      (x, rw past e)
]

pub locate-Known : (d k : ℕ) (cs : List Chunk) → Known d cs → (x : Found) × (locate d k cs ≡ some x)
locate-Known d k [] h = cc
locate-Known d k (c ∷ cs) h = elim (Option-cases (split_request d [] c.requests)) [
  | inr ((b, r, a), e) ↦ ((k, c, r), rw (e, locate) refl)
  | inl e ↦ elim (Bool-cases (elem d (request_ids c.requests))) [
    | inl here ↦ let (x, e') = split_request-known d [] c.requests here in cc
    | inr other ↦
        let (x, e') = locate-Known d (suc k) cs (ground (arith, other)) in (x, rw (e, locate) e')
  ]
]

reclaim_in-returns :
    (c : Chunk) (b : List Request) (r : Request) (a : List Request) (amount : ℤ)
    → amount ≤ℤ r.growth
    → (c' : Chunk) × (reclaim_in c (some (b, r, a)) amount ≡ ok c')
unfolding reclaim
reclaim_in-returns c b r a amount h =
    let enough : ltb_ℤ r.growth amount ≡ false = ground arith in
    (
      record c {
        requests = b ++ record r { growth = r.growth -ℤ amount } ∷ a;
        pool = c.pool +ℤ amount;
        skip_list = if is_skipped c.skip_list r then c.skip_list else c.skip_list ++ r.id ∷ [];
      },
      rw enough refl,
    )

-- A request that was found gives back what it has grown by, or less.
pub locate-reclaim :
    (d k : ℕ) (cs : List Chunk) (p : ℕ) (c : Chunk) (r : Request) (amount : ℤ)
    → locate d k cs ≡ some (p, c, r)
    → amount ≤ℤ r.growth
    → (m : ℕ) × (cs' : List Chunk) × (p ≡ k + m) × (reclaim_from d m amount cs ≡ ok cs')
unfolding reclaim_from
locate-reclaim d k [] p c r amount h le = cc
locate-reclaim d k (x ∷ cs) p c r amount h le =
    elim (Option-cases (split_request d [] x.requests)) [
      | inr ((b, r', a), e) ↦
          let same : ◌≡◌ {A = Found} (k, x, r') (p, c, r) =
            some-injective _ _ (rw (e, locate) at h) in
          let le' : amount ≤ℤ r'.growth =
            subst (λ (y : Found). amount ≤ℤ y.2.growth) (sym same) le in
          let (x', one) = reclaim_in-returns x b r' a amount le' in
          (0, x' ∷ cs, sym (ap (λ (y : Found). y.0) same) ∙ omega arith, rw (e, one) refl)
      | inl e ↦
          let (m, cs', place, rest) =
            locate-reclaim d (suc k) cs p c r amount (rw (e, locate) at h) le in
          (suc m, x ∷ cs', omega arith, rw rest refl)
    ]

close_request-ids : (d : ℕ) (rs : List Request) → request_ids (close_request d rs) ≡ request_ids rs
close_request-ids d [] = refl
close_request-ids d (r ∷ rs) = elim (Bool-cases (r.id == d)) [
  | inl here ↦ rw here (ap (λ xs. r.id ∷ xs) (close_request-ids d rs))
  | inr past ↦ rw past (ap (λ xs. r.id ∷ xs) (close_request-ids d rs))
]

pub close-ids : (d : ℕ) (cs : List Chunk) → device_ids (close d cs) ≡ device_ids cs
close-ids d [] = refl
close-ids d (c ∷ cs) = λ i. close_request-ids d c.requests i ∷ close-ids d cs i

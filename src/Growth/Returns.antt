-- ===== src/Growth/Returns.antt =====
-- `manage_size_sets` of blivet/partitioning.py: the loops of a round over the sets never ask a request for more
-- than it has grown by.
use blivet.Prelude.{
  ℕ, zero, suc, ◌≡◌, refl, sym, ap, ◌∙◌, int_laws, subst, Bool, ◌&&◌, some, Option-cases, Result,
  ok, >>=-eq-ok, ok-injective, arith, ℤ, pos, ◌-ℤ◌, ◌≤ℤ◌, ltb_ℤ, leb_ℤ, eqb_ℤ, List, [], ◌∷◌, ◌++◌,
  Bool-cases, inl, inr,
}
use blivet.Growth.Chunk.{Request, Chunk, min_ℤ}
use blivet.Growth.Grow.{reclaim}
use blivet.Growth.Sets.{
  Round, add_reclaimed, locate, split_request, reclaim_in, reclaim_from, floor_div, size_to_length,
  length_to_size, max_ℤ,
}
use blivet.Growth.Share.{take_back, close_if_met, close_in, trim_one, level_one}
use blivet.Growth.Kept.{split_request-append}
use blivet.Growth.Known.{request_ids, device_ids, locate-reclaim, close-ids}

request_ids-append :
    (b a : List Request) (r r' : Request)
    → r'.id ≡ r.id
    → request_ids (b ++ r' ∷ a) ≡ request_ids (b ++ r ∷ a)
request_ids-append [] a r r' e = λ i. e i ∷ request_ids a
request_ids-append (x ∷ b) a r r' e = ap (λ xs. x.id ∷ xs) (request_ids-append b a r r' e)

reclaim_in-ids :
    (d : ℕ) (c : Chunk) (amount : ℤ) {c' : Chunk}
    → reclaim_in c (split_request d [] c.requests) amount ≡ ok c'
    → request_ids c'.requests ≡ request_ids c.requests
unfolding reclaim
reclaim_in-ids d c amount h = elim (Option-cases (split_request d [] c.requests)) [
  | inl e ↦ let clash = rw (e, reclaim_in) at h in cc
  | inr ((b, r, a), e) ↦ elim (Bool-cases (ltb_ℤ r.growth amount)) [
    | inl short ↦ let clash = rw (e, reclaim_in, short) at h in cc
    | inr enough ↦
        ap (λ (x : Chunk). request_ids x.requests)
          (sym (ok-injective (rw (e, reclaim_in, enough) at h)))
        ∙ request_ids-append b a r _ refl
        ∙ ap request_ids (sym (split_request-append d [] c.requests e))
  ]
]

reclaim_from-ids :
    (d place : ℕ) (amount : ℤ) (cs : List Chunk) {cs' : List Chunk}
    → reclaim_from d place amount cs ≡ ok cs'
    → device_ids cs' ≡ device_ids cs
unfolding reclaim_from
reclaim_from-ids d place amount [] h = cc
reclaim_from-ids d zero amount (c ∷ cs) h =
    let (c', one, e) = >>=-eq-ok (reclaim_in c (split_request d [] c.requests) amount) _ h in
    let first = reclaim_in-ids d c amount one in
    ap device_ids (sym (ok-injective e)) ∙ (λ i. first i ∷ device_ids cs)
reclaim_from-ids d (suc place) amount (c ∷ cs) h =
    let (cs', rest, e) = >>=-eq-ok (reclaim_from d place amount cs) _ h in
    let others = reclaim_from-ids d place amount cs rest in
    ap device_ids (sym (ok-injective e)) ∙ (λ i. request_ids c.requests ∷ others i)

-- A step returns a round with the same devices.
abbrev pub Returns : Result Round → Round → Type 0
Returns result s = (s' : Round) × (result ≡ ok s') × (device_ids s'.chunks ≡ device_ids s.chunks)

take_back-Returns :
    (s : Round) (d place : ℕ) (c : Chunk) (r : Request) (extra : ℤ)
    → locate d 0 s.chunks ≡ some (place, c, r)
    → extra ≤ℤ r.growth
    → Returns (take_back s d place extra) s
take_back-Returns s d place c r extra h le =
    let (m, cs', e, back) = locate-reclaim d 0 s.chunks place c r extra h le in
    let same : m ≡ place = omega arith in
    let back' = subst (λ j. reclaim_from d j extra s.chunks ≡ ok cs') same back in
    (
      record { chunks = cs'; reclaimed = add_reclaimed s place extra },
      rw back' refl,
      reclaim_from-ids d place extra s.chunks back',
    )

close_if_met-ids :
    (needed : ℤ) (s : Round) (d : ℕ)
    → device_ids (close_if_met needed s d).chunks ≡ device_ids s.chunks
close_if_met-ids needed s d = elim (Bool-cases (leb_ℤ needed (pos 0))) [
  | inl met ↦ rw met (close-ids d s.chunks)
  | inr short ↦ rw short refl
]

min_le : (a b : ℤ) → min_ℤ a b ≤ℤ b
min_le a b = ground arith

minus_le : (a b : ℤ) → pos 0 ≤ℤ b → a -ℤ b ≤ℤ a
minus_le a b h = omega int_laws

le_max : (a b : ℤ) → b ≤ℤ max_ℤ a b
le_max a b = ground arith

module _ (quotient : ℤ → ℕ → ℤ) where
  pub trim_one-Returns :
      (first : Bool) (n : ℕ) (size needed : ℤ) (d place : ℕ) (c : Chunk) (r : Request) (s : Round)
      (allocated : ℤ)
      → locate d 0 s.chunks ≡ some (place, c, r)
      → (s' : Round) × (left : ℤ) × (trim_one quotient first n size needed d place c r s allocated
          ≡ ok (s', left))
        × (device_ids s'.chunks ≡ device_ids s.chunks)
  unfolding trim_one
  trim_one-Returns first n size needed d place c r s allocated h =
      let extra = floor_div (pos 0 -ℤ size_to_length quotient c.region needed) n in
      elim (Bool-cases (ltb_ℤ (size -ℤ allocated) (pos 0))) [
        | inr met ↦ (
          close_if_met (size -ℤ allocated) s d,
          allocated,
          rw met refl,
          close_if_met-ids (size -ℤ allocated) s d,
        )
        | inl short ↦ elim (Bool-cases (ltb_ℤ r.growth extra && first)) [
          | inl spared ↦ (s, allocated, rw (short, spared) refl, refl)
          | inr trimmed ↦
              let (taken, back, same) =
                take_back-Returns s d place c r (min_ℤ extra r.growth) h (min_le extra r.growth) in
              let rest = allocated -ℤ length_to_size c.region (min_ℤ extra r.growth) in
              (
                close_if_met (size -ℤ rest) taken d,
                rest,
                rw (short, trimmed, back) refl,
                close_if_met-ids (size -ℤ rest) taken d ∙ same,
              )
        ]
      ]

  pub level_one-Returns :
      (size least : ℤ) (d place : ℕ) (c : Chunk) (r : Request) (s : Round)
      → locate d 0 s.chunks ≡ some (place, c, r)
      → Returns (level_one quotient size least d place c r s) s
  unfolding level_one
  level_one-Returns size least d place c r s h =
      let most = size_to_length quotient c.region size -ℤ pos r.base in
      let min_growth = max_ℤ (min_ℤ least most) (pos 0) in
      let floor : pos 0 ≤ℤ min_growth = le_max (min_ℤ least most) (pos 0) in
      elim (Bool-cases (ltb_ℤ min_growth r.growth)) [
        | inl larger ↦
            let (taken, back, same) =
              take_back-Returns s d place c r (r.growth -ℤ min_growth) h
                (minus_le r.growth min_growth floor) in
            (close_in taken d, rw (larger, back) refl, close-ids d taken.chunks ∙ same)
        | inr not_larger ↦ elim (Bool-cases (eqb_ℤ r.growth min_growth)) [
          | inl equal ↦ (close_in s d, rw (not_larger, equal) refl, close-ids d s.chunks)
          | inr smaller ↦ (s, rw (not_larger, smaller) refl, refl)
        ]
      ]

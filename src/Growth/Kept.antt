-- ===== src/Growth/Kept.antt =====
-- `manage_size_sets` of blivet/partitioning.py neither loses nor makes a unit of any chunk.
use blivet.Prelude.{
  ℕ, zero, suc, ◌≡◌, refl, sym, ap, ◌∙◌, Option, none, some, ok, >>=-eq-ok, ok-injective, ℤ, pos,
  ◌+ℤ◌, leb_ℤ, ◌==◌, List, [], ◌∷◌, ◌++◌, map, Bool-cases, inl, inr,
}
use mathlib.Core.Option.{some-injective}
use mathlib.Core.List.{append_assoc}
use blivet.Growth.Chunk.{Request, Chunk}
use blivet.Growth.Conserve.{total, committed, used}
use blivet.Growth.Room.{reclaim-total}
use blivet.Growth.Sets.{Round, split_request, reclaim_in, reclaim_from, close_request, close}
use blivet.Growth.Share.{take_back, close_if_met}

-- The units of each chunk.
abbrev pub totals : List Chunk → List ℤ
totals chunks = map total chunks

pub split_request-append :
    (id : ℕ) (before rs : List Request) {b : List Request} {r : Request} {a : List Request}
    → split_request id before rs ≡ some (b, r, a)
    → before ++ rs ≡ b ++ r ∷ a
split_request-append id before [] h = cc
split_request-append id before (x ∷ rs) {b} {r} {a} h = elim (Bool-cases (x.id == id)) [
  | inl here ↦
      let e : (before, x, rs) ≡ (b, r, a) = some-injective _ _ (rw here at h) in
      ap (λ (t : List Request × Request × List Request). t.0 ++ t.1 ∷ t.2) e
  | inr past ↦
      sym (append_assoc before (x ∷ []) rs)
      ∙ split_request-append id (before ++ x ∷ []) rs (rw past at h)
]

reclaim_in-total :
    (c : Chunk) (id : ℕ) (o : Option (List Request × Request × List Request)) (amount : ℤ)
    {c' : Chunk}
    → split_request id [] c.requests ≡ o
    → reclaim_in c o amount ≡ ok c'
    → total c' ≡ total c
reclaim_in-total c id none amount e h = cc
reclaim_in-total c id (some (before, r, after)) amount {c'} e h =
    elim (reclaim-total c before after r amount (split_request-append id [] c.requests e)) [
      | inl (_, raised) ↦ let clash = sym raised ∙ h in cc
      | inr (left, returned, _, same) ↦ ap total (ok-injective (sym h ∙ returned)) ∙ same
    ]

reclaim_from-totals :
    (id place : ℕ) (amount : ℤ) (cs : List Chunk) {cs' : List Chunk}
    → reclaim_from id place amount cs ≡ ok cs'
    → totals cs' ≡ totals cs
unfolding reclaim_from
reclaim_from-totals id place amount [] h = cc
reclaim_from-totals id zero amount (c ∷ cs) h =
    let (c', one, e) = >>=-eq-ok (reclaim_in c (split_request id [] c.requests) amount) _ h in
    ap totals (sym (ok-injective e))
    ∙ ap (λ x. x ∷ totals cs) (reclaim_in-total c id _ amount refl one)
reclaim_from-totals id (suc place) amount (c ∷ cs) h =
    let (cs', rest, e) = >>=-eq-ok (reclaim_from id place amount cs) _ h in
    ap totals (sym (ok-injective e))
    ∙ ap (λ xs. total c ∷ xs) (reclaim_from-totals id place amount cs rest)

close_request-committed :
    (id : ℕ) (rs : List Request) → committed (close_request id rs) ≡ committed rs
close_request-committed id [] = refl
close_request-committed id (r ∷ rs) = elim (Bool-cases (r.id == id)) [
  | inl here ↦ rw here (ap (λ x. used r +ℤ x) (close_request-committed id rs))
  | inr past ↦ rw past (ap (λ x. used r +ℤ x) (close_request-committed id rs))
]

pub close-totals : (id : ℕ) (cs : List Chunk) → totals (close id cs) ≡ totals cs
close-totals id [] = refl
close-totals id (c ∷ cs) =
    λ i. (c.pool +ℤ close_request-committed id c.requests i) ∷ close-totals id cs i

pub close_if_met-totals :
    (needed : ℤ) (s : Round) (id : ℕ) → totals (close_if_met needed s id).chunks ≡ totals s.chunks
close_if_met-totals needed s id = elim (Bool-cases (leb_ℤ needed (pos 0))) [
  | inl met ↦ rw met (close-totals id s.chunks)
  | inr short ↦ rw short refl
]

pub take_back-totals :
    (s : Round) (id place : ℕ) (extra : ℤ) {s' : Round}
    → take_back s id place extra ≡ ok s'
    → totals s'.chunks ≡ totals s.chunks
take_back-totals s id place extra h =
    let (cs, one, e) = >>=-eq-ok (reclaim_from id place extra s.chunks) _ h in
    ap (λ (x : Round). totals x.chunks) (sym (ok-injective e))
    ∙ reclaim_from-totals id place extra s.chunks one

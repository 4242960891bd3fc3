-- ===== src/Raid/Lookup/Unique.antt =====
-- No two levels share a name, so a lookup does not depend on the order of the set of levels.
use blivet.Prelude.{
  ◌≡◌, refl, ap, Bool, true, ◌||◌, not, ok, arith, eq_iff, List, [], ◌∷◌, any, all, ==_iff, subst,
  Bool-cases, inl, inr, sym, ◌∙◌,
}
use blivet.Raid.Level.{Level, raid0}
use blivet.Raid.Lookup.{
  Descriptor, text, number, object, other, Name, str, num, same_level, same_name, names, matches,
  raid_level, all_levels,
}

same_name-eq : (a b : Name) → same_name a b ≡ true → a ≡ b
same_name-eq (str a) (str b) h = ap str ((eq_iff a b).0 h)
same_name-eq (num a) (num b) h = ap num ((==_iff a b).0 h)
same_name-eq (str a) (num b) h = cc
same_name-eq (num a) (str b) h = cc

same_level-eq : (a b : Level) → same_level a b ≡ true → a ≡ b
same_level-eq a b h = ground arith

any_shared :
    (n : Name) (xs ys : List Name)
    → any (same_name n) xs ≡ true
    → any (same_name n) ys ≡ true
    → any (λ a. any (same_name a) ys) xs ≡ true
any_shared n [] ys h k = cc
any_shared n (x ∷ xs) ys h k = elim (Bool-cases (same_name n x)) [
  | inl e ↦ rw (subst (λ a. any (same_name a) ys ≡ true) (same_name-eq n x e) k)
  | inr e ↦ ground (arith, any_shared n xs ys (rw e at h) k)
]

-- A check of every level covers each.
all-at : (p : Level → Bool) → all p all_levels ≡ true → (l : Level) → p l ≡ true
all-at p h raid0 = ground arith
all-at p h _ = ground arith

abbrev apart : Level → Level → Bool
apart a b = same_level a b || not (any (λ n. any (same_name n) (names b)) (names a))

names_apart : all (λ a. all (apart a) all_levels) all_levels ≡ true
unfolding names
names_apart = refl

names_unique :
    (n : Name) (a b : Level)
    → any (same_name n) (names a) ≡ true
    → any (same_name n) (names b) ≡ true
    → a ≡ b
names_unique n a b h k =
    let row = all-at (λ x. all (apart x) all_levels) names_apart a in
    let cell = all-at (apart a) row b in
    let both = any_shared n (names a) (names b) h k in
    same_level-eq a b (ground (arith, cell, both))

-- A descriptor matches one level at most.
matches_unique : (d : Descriptor) (a b : Level) → matches d a ≡ true → matches d b ≡ true → a ≡ b
unfolding matches
matches_unique (text s) a b h k = names_unique (str s) a b h k
matches_unique (number n) a b h k = names_unique (num n) a b h k
matches_unique (object l) a b h k = sym (same_level-eq l a h) ∙ same_level-eq l b k
matches_unique other a b h k = cc

-- Whatever the order in which a set of levels is iterated, a level of the set that a descriptor
-- matches is the level that the lookup gives.
pub raid_level-any_order :
    (levels : List Level) (d : Descriptor) (l : Level)
    → any (same_level l) levels ≡ true
    → matches d l ≡ true
    → raid_level levels d ≡ ok l
unfolding raid_level
raid_level-any_order [] d l m h = cc
raid_level-any_order (x ∷ levels) d l m h = elim (Bool-cases (matches d x)) [
  | inl e ↦ rw e (ap ok (matches_unique d x l e h))
  | inr e ↦ rw e (
      raid_level-any_order levels d l
        (elim (Bool-cases (same_level l x)) [
          | inl same ↦
              absurd (ground (arith, subst (λ y. matches d y ≡ true) (same_level-eq l x same) h))
          | inr differs ↦ rw differs at m
        ])
        h)
]

-- ===== src/Keyslots/Order.antt =====
-- The order of the list of keyslot contexts of blivet/devicelibs/crypto.py.
use blivet.Prelude.{
  ◌≡◌, refl, sym, ap, subst, fun_ext, Bool, true, false, Option, none, some, String, Result, ok,
  err, >>=-eq-ok, ok-injective, ℤ, ◌≤ℤ◌, leb_ℤ, List, [], ◌∷◌, ◌++◌, keep, All, arith, inl, inr,
  Bool-cases,
}
use blivet.DeviceTree.Registry.{is_given, same_text}
use blivet.Keyslots.Contexts.{
  KeyslotContext, insert_context, sort_contexts, init_context, is_passphrase, is_keyfile, has_type,
  first_context, get_context, clear_contexts, add_context, add_passphrase, add_keyfile,
  remove_passphrase, other_keyfiles, remove_keyfile, remove_context, Call, clear, add, add_phrase,
  add_file, remove_phrase, remove_file, remove, call, left_or, calls,
}

-- No context has a lower priority than one after it.
abbrev pub IsSorted : List KeyslotContext → Type 0
IsSorted [] = Unit
IsSorted (c ∷ cs) = All (λ (d : KeyslotContext). d.priority ≤ℤ c.priority) cs × IsSorted cs

All-insert_context :
    (P : KeyslotContext → Type 0) (c : KeyslotContext) (cs : List KeyslotContext)
    → P c
    → All P cs
    → All P (insert_context c cs)
All-insert_context P c [] p h = (p, tt)
All-insert_context P c (d ∷ ds) p (q, h) = elim (Bool-cases (leb_ℤ d.priority c.priority)) [
  | inl lower ↦ rw lower (p, (q, h))
  | inr higher ↦ rw higher (q, All-insert_context P c ds p h)
]

All-lower :
    (low high : ℤ) (cs : List KeyslotContext)
    → low ≤ℤ high
    → All (λ (d : KeyslotContext). d.priority ≤ℤ low) cs
    → All (λ (d : KeyslotContext). d.priority ≤ℤ high) cs
All-lower low high [] le h = tt
All-lower low high (d ∷ ds) le (p, h) = (omega arith, All-lower low high ds le h)

insert_context-IsSorted :
    (c : KeyslotContext) (cs : List KeyslotContext) → IsSorted cs → IsSorted (insert_context c cs)
insert_context-IsSorted c [] h = (tt, tt)
insert_context-IsSorted c (d ∷ ds) (below, h) = elim (Bool-cases (leb_ℤ d.priority c.priority)) [
  | inl lower ↦
      let le : d.priority ≤ℤ c.priority = ground (arith, lower) in
      rw lower ((le, All-lower d.priority c.priority ds le below), (below, h))
  | inr higher ↦
      let le : c.priority ≤ℤ d.priority = ground (arith, higher) in
      rw higher (
        All-insert_context (λ (x : KeyslotContext). x.priority ≤ℤ d.priority) c ds le below,
        insert_context-IsSorted c ds h,
      )
]

sort_contexts-IsSorted : (cs : List KeyslotContext) → IsSorted (sort_contexts cs)
sort_contexts-IsSorted [] = tt
sort_contexts-IsSorted (c ∷ cs) =
    insert_context-IsSorted c (sort_contexts cs) (sort_contexts-IsSorted cs)

remove_keyfile-IsSorted :
    (cs : List KeyslotContext) (key_file : Option String) {left : List KeyslotContext}
    → remove_keyfile cs key_file ≡ ok left
    → IsSorted left
unfolding remove_keyfile
remove_keyfile-IsSorted cs key_file h =
    let (others, _, e) = >>=-eq-ok (other_keyfiles key_file cs) _ h in
    subst IsSorted (ok-injective e) (sort_contexts-IsSorted others)

-- A call leaves a sorted list.
call-IsSorted :
    (cs : List KeyslotContext) (x : Call) {left : List KeyslotContext}
    → IsSorted cs
    → call cs x ≡ ok left
    → IsSorted left
unfolding call clear_contexts add_context add_passphrase add_keyfile remove_passphrase
    remove_context
call-IsSorted cs (clear none) s h = subst IsSorted (ok-injective h) tt
call-IsSorted cs (clear (some ctype)) s h =
    subst IsSorted (ok-injective h) (sort_contexts-IsSorted (keep _ cs))
call-IsSorted cs (add c) s h =
    subst IsSorted (ok-injective h) (sort_contexts-IsSorted (cs ++ c ∷ []))
call-IsSorted cs (add_phrase passphrase priority) s h =
    let (c, _, e) = >>=-eq-ok (init_context passphrase none priority) _ h in
    subst IsSorted (ok-injective e) (sort_contexts-IsSorted (cs ++ c ∷ []))
call-IsSorted cs (add_file key_file priority) s h =
    let (c, _, e) = >>=-eq-ok (init_context none key_file priority) _ h in
    subst IsSorted (ok-injective e) (sort_contexts-IsSorted (cs ++ c ∷ []))
call-IsSorted cs (remove_phrase passphrase) s h =
    subst IsSorted (ok-injective h) (sort_contexts-IsSorted (keep _ cs))
call-IsSorted cs (remove_file key_file) s h = remove_keyfile-IsSorted cs key_file h
call-IsSorted cs (remove c) s h = elim (Bool-cases (is_passphrase c)) [
  | inl phrase ↦ subst IsSorted (ok-injective (rw phrase at h)) (sort_contexts-IsSorted (keep _ cs))
  | inr other ↦ elim (Bool-cases (is_keyfile c)) [
    | inl file ↦ remove_keyfile-IsSorted cs c.key_file (rw (other, file) at h)
    | inr neither ↦ subst IsSorted (ok-injective (rw (other, neither) at h)) s
  ]
]

calls-IsSorted : (cs : List KeyslotContext) (xs : List Call) → IsSorted cs → IsSorted (calls cs xs)
unfolding calls
calls-IsSorted cs [] s = s
calls-IsSorted cs (x ∷ xs) s =
    calls-IsSorted (left_or cs (call cs x)) xs (step (call cs x) (λ left e. call-IsSorted cs x s e))
  where
    step :
        (result : Result (List KeyslotContext))
        → ((left : List KeyslotContext) → result ≡ ok left → IsSorted left)
        → IsSorted (left_or cs result)
    step (ok left) h = h left refl
    step (err e) h = s

-- What a search for a context that passes a test gives: none passes, or one that is in the list and
-- passes, and whose priority no other that passes exceeds.
abbrev pub IsHighest :
    (KeyslotContext → Bool) → List KeyslotContext → Option KeyslotContext → Type 0
IsHighest test cs none = All (λ (x : KeyslotContext). test x ≡ false) cs
IsHighest test cs (some c) =
    (before : List KeyslotContext) × (after : List KeyslotContext) × (cs ≡ before ++ c ∷ after)
    × (test c ≡ true)
    × All (λ (x : KeyslotContext). test x ≡ true → x.priority ≤ℤ c.priority) cs

IsHighest-skip :
    (test : KeyslotContext → Bool) (c : KeyslotContext) (cs : List KeyslotContext)
    (o : Option KeyslotContext)
    → test c ≡ false
    → IsHighest test cs o
    → IsHighest test (c ∷ cs) o
IsHighest-skip test c cs none fails h = (fails, h)
IsHighest-skip test c cs (some d) fails (before, after, e, passes, below) =
    (c ∷ before, after, (λ i. c ∷ e i), passes, ((λ h. cc), below))

All-under :
    (test : KeyslotContext → Bool) (high : ℤ) (cs : List KeyslotContext)
    → All (λ (x : KeyslotContext). x.priority ≤ℤ high) cs
    → All (λ (x : KeyslotContext). test x ≡ true → x.priority ≤ℤ high) cs
All-under test high [] h = tt
All-under test high (c ∷ cs) (p, h) = ((λ _. p), All-under test high cs h)

first_context-IsHighest :
    (test : KeyslotContext → Bool) (cs : List KeyslotContext)
    → IsSorted cs
    → IsHighest test cs (first_context (keep test cs))
first_context-IsHighest test [] s = tt
first_context-IsHighest test (c ∷ cs) (below, s) = elim (Bool-cases (test c)) [
  | inl passes ↦
      rw passes ([], cs, refl, passes, ((λ _. omega arith), All-under test c.priority cs below))
  | inr fails ↦ rw fails (
      IsHighest-skip test c cs (first_context (keep test cs)) fails
        (first_context-IsHighest test cs s))
]

keep-has_type :
    (ctype : Option String) (cs : List KeyslotContext)
    → is_given ctype ≡ false
    → keep (has_type ctype) cs ≡ cs
keep-has_type ctype [] h = refl
keep-has_type ctype (c ∷ cs) h = rw h (λ i. c ∷ keep-has_type ctype cs h i)

get_context-first :
    (cs : List KeyslotContext) (ctype : Option String)
    → get_context cs ctype ≡ first_context (keep (has_type ctype) cs)
unfolding get_context
get_context-first cs ctype = elim (Bool-cases (is_given ctype)) [
  | inl given ↦
      let same : has_type ctype ≡ (λ (c : KeyslotContext). same_text (some c.ctype) ctype) =
        fun_ext (λ c. rw given refl) in
      rw given (ap (λ test. first_context (keep test cs)) (sym same))
  | inr any_type ↦ rw any_type (sym (ap first_context (keep-has_type ctype cs any_type)))
]

-- After any calls on a new list, where one that raises changes nothing, `get_context` gives none exactly where
-- no context has the type, or where no type is given, the list is empty; and otherwise a context of
-- the list that has the type, or any where none is given, and that has the highest priority of those.
pub get_context-IsHighest :
    (xs : List Call) (ctype : Option String)
    → IsHighest (has_type ctype) (calls [] xs) (get_context (calls [] xs) ctype)
get_context-IsHighest xs ctype =
    subst (IsHighest (has_type ctype) (calls [] xs)) (sym (get_context-first (calls [] xs) ctype))
      (first_context-IsHighest (has_type ctype) (calls [] xs) (calls-IsSorted [] xs tt))

-- ===== src/Actions/Find.antt =====
-- `find` of blivet/actionlist.py, and the strings of blivet/deviceaction.py that it takes.
use Prim.Native.Char.{code}
use blivet.Prelude.{
  ℕ, ◌+◌, ◌≡◌, refl, Bool, true, false, ◌&&◌, Option, none, some, ◌==◌, leb, if◌then◌else◌, List,
  [], ◌∷◌, keep, String, str_eq, arith, Bool-cases, inl, inr, ◌⊎◌, sym, ap, ◌∙◌,
}
use blivet.Actions.Model.{Kind, Operand, format, device, container, Action, type, obj}

-- `str.lower`, on the code points of ASCII text.
lower_code : ℕ → ℕ
lower_code c = if leb 65 c && leb c 90 then c + 32 else c

lower : String → List ℕ
unfolding lower_code
lower String.[] = []
lower (String.◌∷◌ c s) = lower_code (code c) ∷ lower s

abbrev same_codes : List ℕ → List ℕ → Bool
same_codes [] [] = true
same_codes (x ∷ xs) (y ∷ ys) = x == y && same_codes xs ys
same_codes _ _ = false

-- The first key of a dict of names whose name is the string, but for case.
key_of : List (ℕ × String) → String → Option ℕ
unfolding lower
key_of [] s = none
key_of ((k, v) ∷ names) s = if same_codes (lower v) (lower s) then some k else key_of names s

abbrev action_strings : List (ℕ × String)
action_strings =
    (0, "None")
    ∷ (1000, "Destroy")
    ∷ (500, "Resize")
    ∷ (100, "Create")
    ∷ (50, "Add")
    ∷ (10, "Remove")
    ∷ (5, "Configure")
    ∷ []

abbrev object_strings : List (ℕ × String)
object_strings = (0, "None") ∷ (1, "Format") ∷ (2, "Device") ∷ (3, "Container") ∷ []

abbrev resize_strings : List (ℕ × String)
resize_strings = (88, "Shrink") ∷ (89, "Grow") ∷ []

unfoldable pub resize_type_from_string : Option String → Option ℕ
unfolding key_of
resize_type_from_string none = none
resize_type_from_string (some s) = key_of resize_strings s

abbrev or_else : Option ℕ → Option ℕ → Option ℕ
or_else (some a) b = some a
or_else none b = b

-- A string that names no type of action may still name a direction.
unfoldable pub action_type_from_string : Option String → Option ℕ
unfolding key_of resize_type_from_string
action_type_from_string none = none
action_type_from_string (some s) =
    or_else (key_of action_strings s) (resize_type_from_string (some s))

unfoldable pub action_object_from_string : Option String → Option ℕ
unfolding key_of
action_object_from_string none = none
action_object_from_string (some s) = key_of object_strings s

-- `ACTION_OBJECT_*`
abbrev pub operand_code : Operand → ℕ
operand_code format = 1
operand_code device = 2
operand_code container = 3

-- The keyword arguments of `find`; a device is given by its id.
pub record Query : Type 0 where
  pub device : Option ℕ
  pub action_type : Option String
  pub object_type : Option String
  pub path : Option String
  pub devid : Option ℕ

abbrev is_none {ℓ} : {A : Type ℓ} → Option A → Bool
is_none none = true
is_none (some a) = false

-- `x is not None and y != x` is false.
abbrev agrees {ℓ} : {A : Type ℓ} → (A → Bool) → Option A → Bool
agrees test none = true
agrees test (some x) = test x

abbrev pub accepts : Query → Action → Bool
accepts q action =
    agrees (λ d. action.device.id == d) q.device
    && agrees (λ t. type action.kind == t) (action_type_from_string q.action_type)
    && agrees (λ o. operand_code (obj action.kind) == o) (action_object_from_string q.object_type)
    && agrees (λ p. str_eq action.device.path p) q.path
    && agrees (λ d. action.device.id == d) q.devid

abbrev unconstrained : Query → Bool
unconstrained q =
    is_none q.device
    && is_none q.action_type
    && is_none q.object_type
    && is_none q.path
    && is_none q.devid

unfoldable pub find : Query → List Action → List Action
find q actions = if unconstrained q then actions else keep (accepts q) actions

accepts_all : (q : Query) → unconstrained q ≡ true → (a : Action) → accepts q a ≡ true
unfolding action_type_from_string action_object_from_string
accepts_all q h a = ground arith

keep-all {ℓ} : {A : Type ℓ} (p : A → Bool) (xs : List A) → ((x : A) → p x ≡ true) → keep p xs ≡ xs
keep-all p [] h = refl
keep-all p (x ∷ xs) h = rw (h x) (ap (λ ys. x ∷ ys) (keep-all p xs h))

-- A query without an argument is no exception: the actions found are those that it accepts.
find-keep : (q : Query) (actions : List Action) → find q actions ≡ keep (accepts q) actions
find-keep q actions = elim (Bool-cases (unconstrained q)) [
  | inl all ↦ unfold find in rw all (sym (keep-all (accepts q) actions (accepts_all q all)))
  | inr some_given ↦ unfold find in rw some_given
]

keep_none {ℓ} : {A : Type ℓ} (p : A → Bool) (xs : List A) → ((x : A) → p x ≡ false) → keep p xs ≡ []
keep_none p [] h = refl
keep_none p (x ∷ xs) h = rw (h x) (keep_none p xs h)

-- No action has the number of a direction as its type.
type-ne-direction : (kind : Kind) (k : ℕ) → (k ≡ 88) ⊎ (k ≡ 89) → (type kind == k) ≡ false
type-ne-direction kind k h = ground arith

-- A search by an action type that stands for a direction of resizing ("shrink" is 88, "grow" is 89)
-- finds nothing, whatever the actions and the other arguments.
pub find_direction :
    (q : Query) (actions : List Action) (k : ℕ)
    → action_type_from_string q.action_type ≡ some k
    → (k ≡ 88) ⊎ (k ≡ 89)
    → find q actions ≡ []
find_direction q actions k named direction =
    find-keep q actions
    ∙ keep_none (accepts q) actions
        (λ a. ground (arith, named, type-ne-direction a.kind k direction))

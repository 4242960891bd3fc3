-- ===== src/Prelude/Errors.antt =====
-- Python exceptions as values: a function that may raise returns a `Result`.
use mathlib.Core.Path.{◌≡◌, refl, ap}
use mathlib.Core.Logic.{◌⊎◌, inl, inr}
use mathlib.Core.Bool.{Bool, true, false}

pub data Exception : Type 0 where
  raid_error cyclic_graph_error partitioning_error : Exception
  attribute_error type_error value_error key_error index_error : Exception
  zero_division_error runtime_error device_tree_error duplicate_uuid_error : Exception
  device_error device_format_error dependency_error : Exception
  -- not of the source: a loop of the model stopped at its bound
  out_of_fuel : Exception

-- What a call gives: it raised, or it returned.
pub data Result {ℓ} (A : Type ℓ) : Type ℓ where
  err : Exception → Result A
  ok : A → Result A

infixl 5 ◌>>=◌ ◌>>◌
-- The rest of a function, which runs where the call before it returned.
abbrev pub ◌>>=◌ {ℓ κ} : {A : Type ℓ} {B : Type κ} → Result A → (A → Result B) → Result B
err raised >>= rest = err raised
ok x >>= rest = rest x

abbrev pub ◌>>◌ {κ} : {B : Type κ} → Result (Unit {0}) → Result B → Result B
first >> rest = first >>= λ _. rest

-- `if test: raise e`
abbrev pub raise_if : Bool → Exception → Result (Unit {0})
raise_if true e = err e
raise_if false e = ok tt

-- A function returned, so each of its calls did.
pub >>=-eq-ok {ℓ κ} :
    {B : Type κ} {A : Type ℓ} (call : Result A) (rest : A → Result B) {y : B}
    → (call >>= rest) ≡ ok y
    → (x : A) × (call ≡ ok x) × (rest x ≡ ok y)
>>=-eq-ok (err raised) rest h = cc
>>=-eq-ok (ok x) rest h = (x, refl, h)

-- A guard passed, so what follows it gave the result.
pub >>-eq-ok {κ} :
    {B : Type κ} (guard : Result (Unit {0})) (rest : Result B) {y : B}
    → (guard >> rest) ≡ ok y
    → rest ≡ ok y
>>-eq-ok (err raised) rest h = cc
>>-eq-ok (ok x) rest h = h

value_or {ℓ} : {A : Type ℓ} → A → Result A → A
value_or d (ok a) = a
value_or d (err e) = d

pub ok-injective {ℓ} : {A : Type ℓ} {a b : A} → ok a ≡ ok b → a ≡ b
unfolding value_or
ok-injective {a} e = ap (value_or a) e

pub Result-cases {ℓ} :
    {A : Type ℓ} (r : Result A) → ((a : A) × (r ≡ ok a)) ⊎ ((e : Exception) × (r ≡ err e))
Result-cases (ok a) = inl (a, refl)
Result-cases (err e) = inr (e, refl)

error_or {ℓ} : {A : Type ℓ} → Exception → Result A → Exception
error_or d (ok a) = d
error_or d (err e) = e

pub err-injective {ℓ} : {A : Type ℓ} {d e : Exception} → ◌≡◌ {A = Result A} (err d) (err e) → d ≡ e
unfolding error_or
err-injective {d} h = ap (error_or d) h

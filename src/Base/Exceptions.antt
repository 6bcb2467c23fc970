-- ===== src/Base/Exceptions.antt =====
-- Exceptions as values: a call returns, or raises one of the source's exceptions with its message.
use Prim.Native.String.{String}
use mathlib.Core.Path.{◌≡◌, refl}
use mathlib.Core.Bool.{Bool, true, false}
use mathlib.Core.List.{List}
use mathlib.Core.Logic.{◌⊎◌, inl, inr}
use mathlib.Core.Option.{Option, none, some}

-- The result of arbitration, in the order of the keys of the source's dict. The mesh digest is a key
-- that the issuer adds.
pub record Decision : Type 0 where
  pub allow : Bool
  pub allowed_actions : List String
  pub policy : String
  pub policy_digest : String
  pub reasons : List String
  pub reason_codes : List String
  pub request_digest : String
  pub mesh_preflight_digest : Option String

pub data Error : Type 0 where
  value_error : String → Error
  key_error : String → Error
  type_error : String → Error
  authorization_error : String → Error
  permission_error : String → Error
  mesh_error : String → Error
  overflow_error : String → Error
  -- The subclasses of ValueError and KeyError that policy_registry.py raises.
  validation_error : String → Error
  immutability_error : String → Error
  not_found_error : String → Error
  integrity_error : String → Error
  signature_error : String → Error
  lifecycle_error : String → Error
  activation_conflict : String → Error
  federation_error : String → Error
  -- `PolicyDeniedError`, with the decision that it carries.
  policy_denied : Decision → Error
  -- What an action that the program calls has raised: the exception's type name and its text.
  action_raised : String → String → Error

pub data Outcome {ℓ} (A : Type ℓ) : Type ℓ where
  ok : A → Outcome A
  err : Error → Outcome A

infixl 5 ◌>>=◌ ◌>>◌
abbrev pub ◌>>=◌ {ℓ κ} : {A : Type ℓ} {B : Type κ} → Outcome A → (A → Outcome B) → Outcome B
ok a >>= f = f a
err e >>= f = err e

abbrev pub ◌>>◌ {ℓ} : {B : Type ℓ} → Outcome (Unit {0}) → Outcome B → Outcome B
m >> k = m >>= λ _. k

-- `if test: raise e`.
abbrev pub raise_if : Bool → Error → Outcome (Unit {0})
raise_if true e = err e
raise_if false e = ok tt

abbrev pub or_raise {ℓ} : {A : Type ℓ} → Option A → Error → Outcome A
or_raise none e = err e
or_raise (some a) e = ok a

-- A sequence that returns: its first step has returned, and so has the rest on that.
pub >>=-eq-ok {ℓ κ} :
    {X : Type ℓ} {Y : Type κ} (step : Outcome X) (rest : X → Outcome Y) {y : Y}
    → (step >>= rest) ≡ ok y
    → (x : X) × (step ≡ ok x) × (rest x ≡ ok y)
>>=-eq-ok (err e) rest same = cc
>>=-eq-ok (ok x) rest same = (x, refl, same)

pub Outcome-cases {ℓ} :
    {A : Type ℓ} (o : Outcome A) → ((a : A) × (o ≡ ok a)) ⊎ ((e : Error) × (o ≡ err e))
Outcome-cases (ok a) = inl (a, refl)
Outcome-cases (err e) = inr (e, refl)

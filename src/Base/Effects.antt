-- ===== src/Base/Effects.antt =====
-- What a call returns, an error included, and calls that change a state. What was written before
-- an error stays written: only a transaction takes it back.
use mathlib.Core.Path.{◌≡◌, refl, ap}
use mathlib.Core.Path.{◌≡◌, refl, ap}
use mathlib.Core.Logic.{◌⊎◌, inl, inr}
use mathlib.Core.Bool.{Bool, true, false, ◌||◌}
use project_brain.Base.Tests.{if◌then◌else◌}
use Prim.Native.Nat.{ℕ}
use Prim.Native.String.{String}

-- The error values. `failure` is any error of a driver, a provider or the network;
-- `joined` is `errors.Join`, `wrapped` is `fmt.Errorf` with `%w`.
pub data Err : Type 0 where
  not_found invalid_transition invalid_cursor : Err
  field_error : String → String → Err
  failure : ℕ → Err
  joined : Err → Err → Err
  wrapped : String → Err → Err

pub data Outcome {ℓ} (A : Type ℓ) : Type ℓ where
  ok : A → Outcome A
  err : Err → Outcome A

-- Calls over a state `S`.
abbrev pub Calls {ℓ} : Type ℓ → Type ℓ → Type ℓ
Calls S A = S → Outcome A × S

abbrev pub proceed {ℓ} : {S A B : Type ℓ} → Outcome A × S → (A → Calls S B) → Outcome B × S
proceed (ok a, s) f = f a s
proceed (err e, s) f = (err e, s)

module _ {ℓ} {S A : Type ℓ} where
  abbrev pub pure : A → Calls S A
  pure a s = (ok a, s)

  abbrev pub raise : Err → Calls S A
  raise e s = (err e, s)

  abbrev pub lift : Outcome A → Calls S A
  lift r s = (r, s)

  -- The result of a call as a value, for code that looks at the error and goes on.
  abbrev pub attempt : Calls S A → Calls S (Outcome A)
  attempt m s = let (r, s') = m s in (ok r, s')

module _ {ℓ} {S A B : Type ℓ} where
  infixl 10 ◌>>=◌ ◌>>◌
  abbrev pub ◌>>=◌ : Calls S A → (A → Calls S B) → Calls S B
  ◌>>=◌ m f s = proceed (m s) f

  abbrev pub ◌>>◌ : Calls S A → Calls S B → Calls S B
  m >> n = m >>= λ _. n

-- `errors.Is(err, ErrNotFound)` and `errors.Is(err, ErrInvalidTransition)`
abbrev pub is_not_found : Err → Bool
is_not_found not_found = true
is_not_found (joined e f) = is_not_found e || is_not_found f
is_not_found (wrapped s e) = is_not_found e
is_not_found _ = false

abbrev pub is_invalid_transition : Err → Bool
is_invalid_transition invalid_transition = true
is_invalid_transition (joined e f) = is_invalid_transition e || is_invalid_transition f
is_invalid_transition (wrapped s e) = is_invalid_transition e
is_invalid_transition _ = false

-- `errors.Is(err, ErrValidation)`
abbrev pub is_validation : Err → Bool
is_validation (field_error field message) = true
is_validation (joined e f) = is_validation e || is_validation f
is_validation (wrapped s e) = is_validation e
is_validation _ = false

-- `errors.Is(err, ErrInvalidCursor)`
abbrev pub is_invalid_cursor : Err → Bool
is_invalid_cursor invalid_cursor = true
is_invalid_cursor (joined e f) = is_invalid_cursor e || is_invalid_cursor f
is_invalid_cursor (wrapped s e) = is_invalid_cursor e
is_invalid_cursor _ = false

-- if errors.Is(err, ErrNotFound) { return ErrNotFound }; return err
abbrev pub plain_not_found : Err → Err
plain_not_found e = if is_not_found e then not_found else e

abbrev map_outcome {ℓ} : {A : Type ℓ} → (Err → Err) → Outcome A → Outcome A
map_outcome f (ok a) = ok a
map_outcome f (err e) = err (f e)

abbrev pub map_err {ℓ} : {S A : Type ℓ} → (Err → Err) → Calls S A → Calls S A
map_err f m s = let (r, s') = m s in (map_outcome f r, s')

abbrev pub fail_unless {ℓ} : {S : Type ℓ} → Bool → Err → Calls {ℓ} S (Unit {ℓ})
fail_unless true e s = (ok tt, s)
fail_unless false e s = (err e, s)

-- A success came from two successes.
pub proceed-ok {ℓ} :
    {S A B : Type ℓ} (p : Outcome A × S) (f : A → Calls S B) {b : B}
    → (proceed p f).0 ≡ ok b
    → (a : A) × (p.0 ≡ ok a) × ((f a p.1).0 ≡ ok b) × (proceed p f ≡ f a p.1)
proceed-ok (ok a, s) f h = (a, refl, h, refl)
proceed-ok (err e, s) f h = cc

abbrev result_or {ℓ} : {A : Type ℓ} → A → Outcome A → A
result_or d (ok a) = a
result_or d (err e) = d

pub ok-injective {ℓ} : {A : Type ℓ} {a b : A} → ok a ≡ ok b → a ≡ b
ok-injective {a} h = ap (result_or a) h

pub Outcome-cases {ℓ} :
    {A : Type ℓ} (r : Outcome A) → ((a : A) × (r ≡ ok a)) ⊎ ((e : Err) × (r ≡ err e))
Outcome-cases (ok a) = inl (a, refl)
Outcome-cases (err e) = inr (e, refl)

-- ===== src/Common/Outcome.antt =====
-- src/shared/errors/app-errors.ts, and the requests that may throw.
use Prim.Native.Nat.{ℕ}
use Prim.Native.String.{String}
use mathlib.Core.Path.{◌≡◌, refl, ap}
use mathlib.Core.Logic.{◌⊎◌, inl, inr}
use mathlib.Core.Bool.{Bool, true, false}
use mathlib.Core.Option.{Option, none, some}

-- `AppError`: the HTTP status and the code; the message is text for people.
pub record AppError : Type 0 where
  pub status : ℕ
  pub code : String

abbrev pub app_error : ℕ → String → AppError
app_error status code = record { status = status; code = code }

abbrev pub bad_request_error : String → AppError
bad_request_error = app_error 400

abbrev pub unauthorized_error : String → AppError
unauthorized_error = app_error 401

abbrev pub forbidden_error : String → AppError
forbidden_error = app_error 403

abbrev pub not_found_error : AppError
not_found_error = app_error 404 "NOT_FOUND"

abbrev pub unprocessable_error : String → AppError
unprocessable_error = app_error 422

abbrev pub conflict_error : String → AppError
conflict_error = app_error 409

pub data Result {ℓ} (A : Type ℓ) : Type ℓ where
  ok : A → Result A
  err : AppError → Result A

-- A request on a database of type `S`. What was written before a throw stays written.
abbrev pub Action : Type 0 → Type 0 → Type 0
Action S A = S → Result A × S

module _ {S A : Type 0} where
  abbrev pub pure : A → Action S A
  pure a s = (ok a, s)

  abbrev pub throw : AppError → Action S A
  throw e s = (err e, s)

  abbrev pub gets : (S → A) → Action S A
  gets f s = (ok (f s), s)

  -- `if (!row) throw e`.
  abbrev pub or_throw : Option A → AppError → Action S A
  or_throw none e = throw e
  or_throw (some a) _ = pure a

module _ {S : Type 0} where
  abbrev pub throw_if : Bool → AppError → Action S (Unit {0})
  throw_if true e s = (err e, s)
  throw_if false e s = (ok tt, s)

  abbrev pub modify : (S → S) → Action S (Unit {0})
  modify f s = (ok tt, f s)

infixl 5 ◌>>=◌ ◌>>◌
abbrev pub ◌>>=◌ : {S A B : Type 0} → Action S A → (A → Action S B) → Action S B
◌>>=◌ m f s = let (r, s') = m s in elim r [ ok a ↦ f a s' | err e ↦ throw e s' ]

abbrev pub ◌>>◌ : {S A B : Type 0} → Action S A → Action S B → Action S B
m >> k = m >>= λ _. k

pub Result-cases {ℓ} :
    {A : Type ℓ} (r : Result A) → ((a : A) × (r ≡ ok a)) ⊎ ((e : AppError) × (r ≡ err e))
Result-cases (ok a) = inl (a, refl)
Result-cases (err e) = inr (e, refl)

-- A step that succeeds hands its value and its state to the rest.
pub >>=-ok :
    {S A B : Type 0} (m : Action S A) (f : A → Action S B) {s s' : S} {a : A}
    → m s ≡ (ok a, s')
    → (m >>= f) s ≡ f a s'
>>=-ok {S} {A} {B} m f {s} e =
    ap
      (λ (r : Result A × S). elim r.0 as (λ x. Result B × S) [
        | ok a ↦ f a r.1
        | err x ↦ throw x r.1
      ])
      e

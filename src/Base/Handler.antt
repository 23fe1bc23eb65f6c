-- ===== src/Base/Handler.antt =====
-- What a request handler does: it reads and writes its store, and returns a value or throws. The
-- store comes back after a throw too, since what was written stays written.
use mathlib.Core.Path.{◌≡◌, refl}
use mathlib.Core.Logic.{◌⊎◌, inl, inr}
use mathlib.Core.Bool.{Bool, true, false}
use mathlib.Core.Option.{Option, none, some}
use mathlib.Core.List.{List}
use callnow.Base.Tests.{if◌then◌else◌}
use callnow.Base.Rows.{exists_where, update_where}

-- the `code` of the exceptions' bodies
pub data Code : Type 0 where
  validation_error rate_limited unauthorized not_found forbidden : Code
  plan_limit_exceeded number_not_owned : Code

-- `fault` is an exception that the service does not throw itself: a rejected query or a failed
-- provider call, which leaves the handler as a server error.
pub data Error : Type 0 where
  bad_request unauthorized_exception not_found_exception forbidden_exception : Code → Error
  fault : Error

pub data Result (A : Type 0) : Type 0 where
  ok : A → Result A
  err : Error → Result A

abbrev pub Action : Type 0 → Type 0 → Type 0
Action S A = S → Result A × S

abbrev pub is_ok : {A : Type 0} → Result A → Bool
is_ok (ok a) = true
is_ok (err e) = false

abbrev pub result_of : {A : Type 0} → Option A → Error → Result A
result_of none e = err e
result_of (some a) e = ok a

module _ {S A : Type 0} where
  abbrev pub pure : A → Action S A
  pure a s = (ok a, s)

  abbrev pub throw : Error → Action S A
  throw e s = (err e, s)

  abbrev pub gets : (S → A) → Action S A
  gets f s = (ok (f s), s)

  -- The store is written outside the case split, so that it computes before the split is made.
  abbrev pub or_throw : Option A → Error → Action S A
  or_throw o e s = (result_of o e, s)

  -- a query and the exception that the handler throws when it finds nothing
  abbrev pub require : (S → Option A) → Error → Action S A
  require f e s = or_throw (f s) e s

module _ {S : Type 0} where
  abbrev pub modify : (S → S) → Action S (Unit {0})
  modify f s = (ok tt, f s)

  abbrev pub throw_if : Bool → Error → Action S (Unit {0})
  throw_if c e s = (if c then err e else ok tt, s)

infixl 5 ◌>>=◌ ◌>>◌
abbrev pub ◌>>=◌ : {S A B : Type 0} → Action S A → (A → Action S B) → Action S B
◌>>=◌ m f s = let (r, s') = m s in elim r [ ok a ↦ f a s' | err e ↦ throw e s' ]

abbrev pub ◌>>◌ : {S A B : Type 0} → Action S A → Action S B → Action S B
m >> k = m >>= λ _. k

-- `try { … } catch { … }`
abbrev pub catch_with : {S A : Type 0} → Action S A → (Error → Action S A) → Action S A
catch_with m h s = let (r, s') = m s in elim r [ ok a ↦ pure a s' | err e ↦ h e s' ]

-- `update` of one row: the query is rejected if no row is there.
abbrev pub update_required : {A : Type 0} → (A → Bool) → (A → A) → List A → Option (List A)
update_required p f rows = if exists_where p rows then some (update_where p f rows) else none

pub Result-cases : {A : Type 0} (r : Result A) → (is_ok r ≡ false) ⊎ ((a : A) × (r ≡ ok a))
Result-cases (ok a) = inr (a, refl)
Result-cases (err e) = inl refl

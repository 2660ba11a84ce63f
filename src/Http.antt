-- ===== src/Http.antt =====
-- What a request handler throws: the exceptions of @nestjs/common, the errors of the Prisma client
-- and the results that a service method returns or throws.
use betti_coaching_calendar.Prelude.{ℕ, ◌≡◌, refl, ◌⊎◌, inl, inr, String, Option, none, some, List}

-- The text of an exception: a literal, or `i18n.t(key, locale, vars)`.
pub data Message : Type 0 where
  plain : String → Message
  translated : String → Option String → List (String × ℕ) → Message

pub data Error : Type 0 where
  bad_request unauthorized forbidden not_found conflict service_unavailable : Message → Error
  -- `PrismaClientKnownRequestError` with its code
  prisma_error : String → Error
  -- any other `Error`
  failure : String → Error

pub data Result {ℓ} (A : Type ℓ) : Type ℓ where
  ok : A → Result A
  err : Error → Result A

infixl 5 ◌>>=◌
abbrev pub ◌>>=◌ {ℓ κ} : {A : Type ℓ} {B : Type κ} → Result A → (A → Result B) → Result B
ok a >>= f = f a
err e >>= f = err e

abbrev pub or_throw {ℓ} : {A : Type ℓ} → Option A → Error → Result A
or_throw none e = err e
or_throw (some a) e = ok a

abbrev pub map_ok {ℓ κ} : {A : Type ℓ} {B : Type κ} → (A → B) → Result A → Result B
map_ok f (ok a) = ok (f a)
map_ok f (err e) = err e

pub Result-cases {ℓ} :
    {A : Type ℓ} (r : Result A) → ((e : Error) × (r ≡ err e)) ⊎ ((a : A) × (r ≡ ok a))
Result-cases (err e) = inl (e, refl)
Result-cases (ok a) = inr (a, refl)

-- ===== src/Action.antt =====
-- A service method: it reads and writes a state and may throw. What it wrote before it threw stays
-- written, so the state comes back beside an error too.
pub mod Keeps
pub mod Inversion
use betti_coaching_calendar.Prelude.{Bool, true, false, Option, none, some, if◌then◌else◌}
use betti_coaching_calendar.Http.{Error, Result, ok, err, or_throw}

abbrev pub Action {ℓ κ} : Type ℓ → Type κ → Type (ℓ ⊔ κ)
Action S A = S → Result A × S

module _ {ℓ κ} {S : Type ℓ} {A : Type κ} where
  unfoldable pub pure : A → Action S A
  pure a s = (ok a, s)

  unfoldable pub throw : Error → Action S A
  throw e s = (err e, s)

  -- a computation that does not touch the state
  unfoldable pub lift : Result A → Action S A
  lift r s = (r, s)

  -- a read
  unfoldable pub gets : (S → A) → Action S A
  gets f s = (ok (f s), s)

  -- a read whose result may be null
  unfoldable pub find_or_throw : (S → Option A) → Error → Action S A
  find_or_throw f e s = (or_throw (f s) e, s)

module _ {ℓ} {S : Type ℓ} where
  -- `if (test) throw …`
  unfoldable pub throw_if : Bool → Error → Action S (Unit {0})
  throw_if b e s = (if b then err e else ok tt, s)

  -- the same, where the test reads the state
  unfoldable pub throw_when : (S → Bool) → Error → Action S (Unit {0})
  throw_when f e s = (if f s then err e else ok tt, s)

  -- a write
  unfoldable pub modify : (S → S) → Action S (Unit {0})
  modify f s = (ok tt, f s)

module _ {ℓ κ ι} {S : Type ℓ} {A : Type κ} {B : Type ι} where
  abbrev pub continue : (A → Action S B) → Result A × S → Result B × S
  continue f (ok a, s) = f a s
  continue f (err e, s) = (err e, s)

  infixl 5 ◌>>=◌ ◌>>◌
  -- opening this opens the actions above too
  unfoldable pub ◌>>=◌ : Action S A → (A → Action S B) → Action S B
  unfolding pure throw lift gets find_or_throw throw_if throw_when modify
  ◌>>=◌ m f s = continue f (m s)

  abbrev pub ◌>>◌ : Action S A → Action S B → Action S B
  m >> k = m >>= λ _. k

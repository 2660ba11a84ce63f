-- ===== src/Action/Inversion.antt =====
-- What a successful block tells of its steps.
use betti_coaching_calendar.Prelude.{◌≡◌, refl, Bool, true, false, Option, none, some}
use betti_coaching_calendar.Http.{Error, Result, ok, err, or_throw}
use betti_coaching_calendar.Action.{Action, lift, find_or_throw, throw_if, continue, ◌>>=◌, ◌>>◌}

module _ {ℓ κ ι} {S : Type ℓ} {A : Type κ} {B : Type ι} where
  pub bind-ok :
      (m : Action S A) (f : A → Action S B) (s : S) {b : B} {s' : S}
      → (m >>= f) s ≡ (ok b, s')
      → (a : A) × (t : S) × (m s ≡ (ok a, t)) × (f a t ≡ (ok b, s'))
  unfolding ◌>>=◌
  bind-ok m f s {b} {s'} h = go (m s) refl h
    where
      go :
          (r : Result A × S)
          → m s ≡ r
          → continue f r ≡ (ok b, s')
          → (a : A) × (t : S) × (m s ≡ (ok a, t)) × (f a t ≡ (ok b, s'))
      go (ok a, t) e h = (a, t, e, h)
      go (err x, t) e h = cc

  pub find-ok :
      (g : S → Option A) (e : Error) (f : A → Action S B) (s : S) {b : B} {s' : S}
      → (find_or_throw g e >>= f) s ≡ (ok b, s')
      → (a : A) × (g s ≡ some a) × (f a s ≡ (ok b, s'))
  unfolding ◌>>=◌
  find-ok g e f s {b} {s'} h = go (g s) refl h
    where
      go :
          (o : Option A)
          → g s ≡ o
          → continue f (or_throw o e, s) ≡ (ok b, s')
          → (a : A) × (g s ≡ some a) × (f a s ≡ (ok b, s'))
      go none p h = cc
      go (some a) p h = (a, p, h)

  pub lift-ok :
      (r : Result A) (f : A → Action S B) (s : S) {b : B} {s' : S}
      → (lift r >>= f) s ≡ (ok b, s')
      → (a : A) × (r ≡ ok a) × (f a s ≡ (ok b, s'))
  unfolding ◌>>=◌
  lift-ok (ok a) f s h = (a, refl, h)
  lift-ok (err e) f s h = cc

module _ {ℓ κ} {S : Type ℓ} {B : Type κ} where
  pub throw_if-ok :
      (test : Bool) (e : Error) (m : Action S B) (s : S) {b : B} {s' : S}
      → (throw_if test e >> m) s ≡ (ok b, s')
      → (test ≡ false) × (m s ≡ (ok b, s'))
  unfolding ◌>>=◌
  throw_if-ok true e m s h = cc
  throw_if-ok false e m s h = (refl, h)

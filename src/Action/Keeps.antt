-- ===== src/Action/Keeps.antt =====
-- Properties of the state that an action keeps, one rule for each way to build an action.
use betti_coaching_calendar.Prelude.{
  ◌≡◌, refl, sym, subst, ap, Bool, true, false, Option, none, some,
}
use betti_coaching_calendar.Http.{Error, Result, ok, err, or_throw}
use betti_coaching_calendar.Action.{
  Action, pure, lift, gets, find_or_throw, throw_if, throw_when, modify, continue, ◌>>=◌, ◌>>◌,
}

-- `m` keeps `P`, whether it returns or throws
pub record Keeps {ℓ κ} {S : Type ℓ} {A : Type κ} (P : S → Type 0) (m : Action S A)
    : Type (ℓ ⊔ κ) where
  pub at : (s : S) → P s → P (m s).1

-- an action that leaves the state as it was keeps everything
still {ℓ κ} :
    {S : Type ℓ} {A : Type κ} {P : S → Type 0} (m : Action S A)
    → ((s : S) → (m s).1 ≡ s)
    → Keeps P m
still {P} m same = record { at = λ s h. subst P (sym (same s)) h }

module _ {ℓ κ} {S : Type ℓ} {A : Type κ} {P : S → Type 0} where
  pub Keeps-find_or_throw : (f : S → Option A) (e : Error) → Keeps P (find_or_throw f e)
  unfolding find_or_throw
  Keeps-find_or_throw f e = still _ (λ _. refl)

  pub Keeps-gets : (f : S → A) → Keeps P (gets f)
  unfolding gets
  Keeps-gets f = still _ (λ _. refl)

  pub Keeps-pure : (a : A) → Keeps P (pure a)
  unfolding pure
  Keeps-pure a = still _ (λ _. refl)

  pub Keeps-lift : (r : Result A) → Keeps P (lift r)
  unfolding lift
  Keeps-lift r = still _ (λ _. refl)

module _ {ℓ} {S : Type ℓ} {P : S → Type 0} where
  pub Keeps-throw_when : (f : S → Bool) (e : Error) → Keeps P (throw_when f e)
  unfolding throw_when
  Keeps-throw_when f e = still _ (λ _. refl)

  pub Keeps-throw_if : (b : Bool) (e : Error) → Keeps P (throw_if b e)
  unfolding throw_if
  Keeps-throw_if b e = still _ (λ _. refl)

  pub Keeps-modify : (f : S → S) → ((s : S) → P s → P (f s)) → Keeps P (modify f)
  unfolding modify
  Keeps-modify f k = record { at = k }

module _ {ℓ κ ι} {S : Type ℓ} {A : Type κ} {B : Type ι} (P : S → Type 0) where
  continue-keeps :
      (f : A → Action S B) (r : Result A × S)
      → P r.1
      → ((a : A) → r.0 ≡ ok a → P (f a r.1).1)
      → P (continue f r).1
  continue-keeps f (ok a, s) h k = k a refl
  continue-keeps f (err e, s) h k = h

module _ {ℓ κ ι} {S : Type ℓ} {A : Type κ} {B : Type ι} {P : S → Type 0} where
  pub Keeps-bind :
      (m : Action S A) (f : A → Action S B)
      → Keeps P m
      → ((a : A) → Keeps P (f a))
      → Keeps P (m >>= f)
  unfolding ◌>>=◌
  Keeps-bind m f km kf = record {
    at = λ s h. continue-keeps P f (m s) (km.at s h) (λ a _. (kf a).at (m s).1 (km.at s h));
  }

  -- The rest of a block may use what a read found.
  pub Keeps-find :
      (g : S → Option A) (e : Error) (f : A → Action S B)
      → ((a : A) (s : S) → P s → g s ≡ some a → P (f a s).1)
      → Keeps P (find_or_throw g e >>= f)
  unfolding ◌>>=◌
  Keeps-find g e f k = record {
    at = λ s h. continue-keeps P f (or_throw (g s) e, s) h (λ a p. k a s h (found-ok (g s) p));
  }
    where
      found-ok : (o : Option A) {a : A} → or_throw o e ≡ ok a → o ≡ some a
      found-ok none p = cc
      found-ok (some b) p = cc

  -- The same, for what the read found.
  pub Keeps-found :
      (T : A → Type 0) (g : S → Option A) (e : Error) (f : A → Action S B)
      → ((a : A) (s : S) → P s → g s ≡ some a → T a)
      → ((a : A) → T a → Keeps P (f a))
      → Keeps P (find_or_throw g e >>= f)
  Keeps-found T g e f known k = Keeps-find g e f (λ a s h p. (k a (known a s h p)).at s h)

  pub Keeps-read :
      (T : A → Type 0) (g : S → A) (f : A → Action S B)
      → ((s : S) → P s → T (g s))
      → ((a : A) → T a → Keeps P (f a))
      → Keeps P (gets g >>= f)
  unfolding ◌>>=◌
  Keeps-read T g f known k = record { at = λ s h. (k (g s) (known s h)).at s h }

  pub Keeps-lift_bind :
      (r : Result A) (f : A → Action S B)
      → ((a : A) → r ≡ ok a → Keeps P (f a))
      → Keeps P (lift r >>= f)
  unfolding ◌>>=◌
  Keeps-lift_bind r f k = record { at = λ s h. continue-keeps P f (r, s) h (λ a p. (k a p).at s h) }

pub ruleset keeps_rules = (
  Keeps-pure, Keeps-lift, Keeps-gets, Keeps-find_or_throw, Keeps-throw_if, Keeps-throw_when,
  Keeps-bind,
)

-- `m` takes a state with `P` to one with `Q`, whether it returns or throws
pub record Leads {ℓ κ} {S : Type ℓ} {A : Type κ} (P Q : S → Type 0) (m : Action S A)
    : Type (ℓ ⊔ κ) where
  pub at : (s : S) → P s → Q (m s).1

module _ {ℓ κ ι} {S : Type ℓ} {A : Type κ} {B : Type ι} {P Q : S → Type 0} where
  pub Leads-bind :
      (m : Action S A) (f : A → Action S B)
      → ((s : S) → P s → Q s)
      → Keeps P m
      → ((a : A) → Leads P Q (f a))
      → Leads P Q (m >>= f)
  unfolding ◌>>=◌
  Leads-bind m f weaker km kf = record { at = λ s h. go (m s) (km.at s h) }
    where
      go : (r : Result A × S) → P r.1 → Q (continue f r).1
      go (ok a, s) h = (kf a).at s h
      go (err e, s) h = weaker s h

  -- from some step on only `Q` matters, and what the step answered
  pub Leads-into :
      (T : A → Type 0) (m : Action S A) (f : A → Action S B)
      → Leads P Q m
      → ((a : A) (s s' : S) → m s ≡ (ok a, s') → T a)
      → ((a : A) → T a → Keeps Q (f a))
      → Leads P Q (m >>= f)
  unfolding ◌>>=◌
  Leads-into T m f km known kf = record {
    at = λ s h.
        continue-keeps Q f (m s) (km.at s h)
          (λ a e. (kf a (known a s (m s).1 (ap (λ r. (r, (m s).1)) e))).at (m s).1 (km.at s h));
  }

module _ {ℓ κ ι} {S : Type ℓ} {A : Type κ} {B : Type ι} {P : S → Type 0} where
  -- The rest of a block may use what is known of the row that a read found.
  pub Keeps-with :
      (T : A → Type 0) (W : A → S → Type 0) (g : S → Option A) (e : Error) (f : A → Action S B)
      → ((a : A) (s : S) → P s → g s ≡ some a → T a × W a s)
      → ((a : A) → T a → Leads (W a) P (f a))
      → Keeps P (find_or_throw g e >>= f)
  Keeps-with T W g e f known k =
      Keeps-find g e f (λ a s h p. (k a (known a s h p).0).at s (known a s h p).1)

module _ {ℓ κ} {S : Type ℓ} {B : Type κ} {P : S → Type 0} where
  -- The rest of a block may use that a check before it has passed.
  pub Keeps-unless :
      (test : Bool) (e : Error) (m : Action S B)
      → (test ≡ false → Keeps P m)
      → Keeps P (throw_if test e >> m)
  unfolding ◌>>=◌
  Keeps-unless true e m k = record { at = λ s h. h }
  Keeps-unless false e m k = record { at = λ s h. (k refl).at s h }

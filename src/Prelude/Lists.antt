-- ===== src/Prelude/Lists.antt =====
-- Lists and options as the source uses them: `find`, `some`, `includes`, `??`.
use Prim.Native.Nat.{ℕ, suc}
use mathlib.Core.Path.{◌≡◌, refl, ap}
use mathlib.Core.Logic.{◌⊎◌, inl, inr}
use mathlib.Core.Bool.{Bool, true, false, ◌||◌}
use mathlib.Core.Option.{Option, none, some}
use mathlib.Core.List.{List, [], ◌∷◌, ◌++◌}
use native.Mathlib.Omega.{arith}
use betti_coaching_calendar.Prelude.Tests.{if◌then◌else◌, Bool-cases}

-- `a ?? b`
abbrev pub get_or {ℓ} : {A : Type ℓ} → Option A → A → A
get_or none b = b
get_or (some a) b = a

-- `a ?? b` where `b` may be absent too
abbrev pub or_else {ℓ} : {A : Type ℓ} → Option A → Option A → Option A
or_else none b = b
or_else (some a) b = some a

abbrev pub is_some {ℓ} : {A : Type ℓ} → Option A → Bool
is_some none = false
is_some (some a) = true

module _ {ℓ} {A : Type ℓ} where
  abbrev pub length : List A → ℕ
  length [] = 0
  length (x ∷ xs) = suc (length xs)

  -- the first row that satisfies the test
  unfoldable pub find : (A → Bool) → List A → Option A
  find p [] = none
  find p (x ∷ xs) = if p x then some x else find p xs

  -- the rows that satisfy the test, in their order
  unfoldable pub keep : (A → Bool) → List A → List A
  keep p [] = []
  keep p (x ∷ xs) = let rest = keep p xs in if p x then x ∷ rest else rest

  unfoldable pub any : (A → Bool) → List A → Bool
  any p [] = false
  any p (x ∷ xs) = p x || any p xs

  -- `UPDATE … WHERE`
  unfoldable pub update_where : (A → Bool) → (A → A) → List A → List A
  update_where p f [] = []
  update_where p f (x ∷ xs) = (if p x then f x else x) ∷ update_where p f xs

  -- insertion of a row before the first that is not smaller, for a stable `ORDER BY`
  unfoldable pub insert_by : (A → A → Bool) → A → List A → List A
  insert_by le x [] = x ∷ []
  insert_by le x (y ∷ ys) = let rest = insert_by le x ys in if le x y then x ∷ y ∷ ys else y ∷ rest

  unfoldable pub sort_by : (A → A → Bool) → List A → List A
  unfolding insert_by
  sort_by le [] = []
  sort_by le (x ∷ xs) = insert_by le x (sort_by le xs)

module _ {ℓ κ} {A : Type ℓ} (P : A → Type κ) where
  -- every row has the property
  abbrev pub All : List A → Type κ
  All [] = Unit
  All (x ∷ xs) = P x × All xs

  -- some row has it; a proof is a position
  pub data Any : List A → Type (ℓ ⊔ κ) where
    here : {x : A} {xs : List A} → P x → Any (x ∷ xs)
    there : {x : A} {xs : List A} → Any xs → Any (x ∷ xs)

-- a position of `a` in the list
abbrev pub In {ℓ} : {A : Type ℓ} → A → List A → Type ℓ
In a xs = Any (λ x. x ≡ a) xs

module _ {ℓ} {A : Type ℓ} (p : A → Bool) where
  pub find_sound : (xs : List A) {a : A} → find p xs ≡ some a → p a ≡ true
  unfolding find
  find_sound [] h = ground arith
  find_sound (x ∷ xs) {a} h = ground (arith, find_sound xs {a = a})

  pub any-eq-false : (xs : List A) → any p xs ≡ false → All (λ x. p x ≡ false) xs
  unfolding any
  any-eq-false [] h = tt
  any-eq-false (x ∷ xs) h = ground (arith, any-eq-false xs)

  pub find-eq-none : (xs : List A) → find p xs ≡ none → All (λ x. p x ≡ false) xs
  unfolding find
  find-eq-none [] h = tt
  find-eq-none (x ∷ xs) h = ground (arith, find-eq-none xs)

module _ {ℓ κ} {A : Type ℓ} (P : A → Type κ) (p : A → Bool) where
  pub All-keep : (xs : List A) → All P xs → All P (keep p xs)
  unfolding keep
  All-keep [] h = tt
  All-keep (x ∷ xs) h = elim (Bool-cases (p x)) [
    | inl e ↦ rw e (h.0, All-keep xs h.1)
    | inr e ↦ rw e (All-keep xs h.1)
  ]

  pub All-update_where :
      (f : A → A) (xs : List A)
      → ((x : A) → p x ≡ true → P x → P (f x))
      → All P xs
      → All P (update_where p f xs)
  unfolding update_where
  All-update_where f [] k h = tt
  All-update_where f (x ∷ xs) k h = elim (Bool-cases (p x)) [
    | inl e ↦ rw e (k x e h.0, All-update_where f xs k h.1)
    | inr e ↦ rw e (h.0, All-update_where f xs k h.1)
  ]

module _ {ℓ κ} {A : Type ℓ} (P : A → Type κ) where
  pub All-In : (a : A) (xs : List A) → All P xs → In a xs → P a
  All-In a [] h m = elim m [ ]
  All-In a (x ∷ xs) h (here e) = rw (← e) h.0
  All-In a (x ∷ xs) h (there m) = All-In a xs h.1 m

  pub All-of_In : (xs : List A) → ((a : A) → In a xs → P a) → All P xs
  All-of_In [] k = tt
  All-of_In (x ∷ xs) k = (k x (here refl), All-of_In xs (λ a m. k a (there m)))

module _ {ℓ} {A : Type ℓ} where
  pub find-In : (p : A → Bool) (xs : List A) (a : A) → find p xs ≡ some a → In a xs
  unfolding find
  find-In p [] a h = cc
  find-In p (x ∷ xs) a h = elim (Bool-cases (p x)) [
    | inl e ↦ here (ground arith)
    | inr e ↦ there (find-In p xs a (ground arith))
  ]

module _ {ℓ κ} {A : Type ℓ} (P : A → Type κ) where
  pub All-append : (xs ys : List A) → All P xs → All P ys → All P (xs ++ ys)
  All-append [] ys h k = k
  All-append (x ∷ xs) ys h k = (h.0, All-append xs ys h.1 k)

module _ {ℓ κ ι} {A : Type ℓ} {P : A → Type κ} (Q : A → Type ι) where
  pub All-map : (xs : List A) → ((a : A) → In a xs → P a → Q a) → All P xs → All Q xs
  All-map [] k h = tt
  All-map (x ∷ xs) k h = (k x (here refl) h.0, All-map xs (λ a m p. k a (there m) p) h.1)

module _ {ℓ} {A : Type ℓ} (p : A → Bool) (f : A → A) where
  pub In-update_where :
      (a : A) (xs : List A) → In a xs → In (if p a then f a else a) (update_where p f xs)
  unfolding update_where
  In-update_where a [] m = elim m [ ]
  In-update_where a (x ∷ xs) (here e) = here (ap (λ y. if p y then f y else y) e)
  In-update_where a (x ∷ xs) (there m) = there (In-update_where a xs m)

module _ {ℓ} {A : Type ℓ} where
  pub In-append : (a : A) (xs ys : List A) → In a (xs ++ ys) → In a xs ⊎ In a ys
  In-append a [] ys m = inr m
  In-append a (x ∷ xs) ys (here e) = inl (here e)
  In-append a (x ∷ xs) ys (there m) = elim (In-append a xs ys m) [
    | inl n ↦ inl (there n)
    | inr n ↦ inr n
  ]

  pub In-append_left : (a : A) (xs ys : List A) → In a xs → In a (xs ++ ys)
  In-append_left a [] ys m = elim m [ ]
  In-append_left a (x ∷ xs) ys (here e) = here e
  In-append_left a (x ∷ xs) ys (there m) = there (In-append_left a xs ys m)

  pub In-append_right : (a : A) (xs ys : List A) → In a ys → In a (xs ++ ys)
  In-append_right a [] ys m = m
  In-append_right a (x ∷ xs) ys m = there (In-append_right a xs ys m)

-- A row that an update keeps in reach is found again, updated.
pub find-update_where {ℓ} :
    {A : Type ℓ} (p : A → Bool) (f : A → A) (xs : List A) (a : A)
    → ((x : A) → p (f x) ≡ p x)
    → find p xs ≡ some a
    → find p (update_where p f xs) ≡ some (f a)
unfolding find update_where
find-update_where p f [] a k h = cc
find-update_where p f (x ∷ xs) a k h = elim (Bool-cases (p x)) [
  | inl e ↦ rw (e, k x, e) (ground arith)
  | inr e ↦ rw (e, e) (find-update_where p f xs a k (ground arith))
]

-- a row that is found by another key than the one by which it is changed
pub find-update_where_other {ℓ} :
    {A : Type ℓ} (q p : A → Bool) (f : A → A) (xs : List A) (a : A)
    → ((x : A) → q (f x) ≡ q x)
    → find q xs ≡ some a
    → p a ≡ true
    → find q (update_where p f xs) ≡ some (f a)
unfolding find update_where
find-update_where_other q p f [] a k h m = cc
find-update_where_other q p f (x ∷ xs) a k h m = elim (Bool-cases (q x)) [
  | inl e ↦ let same : x ≡ a = ground arith in rw same (rw (m, k a) (ground arith))
  | inr e ↦
      let rest = find-update_where_other q p f xs a k (ground arith) m in
      elim (Bool-cases (p x)) [ inl i ↦ rw (i, k x, e) rest | inr i ↦ rw (i, e) rest ]
]

-- a row that an update does not change is found as before
pub find-update_where_apart {ℓ} :
    {A : Type ℓ} (q p : A → Bool) (f : A → A) (xs : List A)
    → ((x : A) → q (f x) ≡ q x)
    → ((x : A) → p x ≡ true → q x ≡ false)
    → find q (update_where p f xs) ≡ find q xs
unfolding find update_where
find-update_where_apart q p f [] k h = refl
find-update_where_apart q p f (x ∷ xs) k h =
    let rest = find-update_where_apart q p f xs k h in
    elim (Bool-cases (p x)) [ inl e ↦ rw (e, k x, h x e) rest | inr e ↦ rw (e, rest) refl ]

-- a row at the end that does not fit
pub find-snoc {ℓ} :
    {A : Type ℓ} (q : A → Bool) (xs : List A) (a : A)
    → q a ≡ false
    → find q (xs ++ a ∷ []) ≡ find q xs
unfolding find
find-snoc q [] a h = rw h refl
find-snoc q (x ∷ xs) a h = rw (find-snoc q xs a h) refl

-- a row at the end that fits, where none did before
pub find-snoc_new {ℓ} :
    {A : Type ℓ} (q : A → Bool) (xs : List A) (a : A)
    → q a ≡ true
    → find q xs ≡ none
    → find q (xs ++ a ∷ []) ≡ some a
unfolding find
find-snoc_new q [] a h n = rw h refl
find-snoc_new q (x ∷ xs) a h n = ground (arith, find-snoc_new q xs a h)

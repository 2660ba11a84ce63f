-- ===== src/Prelude/Pairs.antt =====
-- Lists whose elements agree two by two.
use mathlib.Core.Path.{◌≡◌, refl}
use mathlib.Core.Logic.{inl, inr}
use mathlib.Core.Bool.{Bool}
use mathlib.Core.List.{List, [], ◌∷◌, ◌++◌}
use betti_coaching_calendar.Prelude.Tests.{if◌then◌else◌, Bool-cases}
use betti_coaching_calendar.Prelude.Lists.{All, All-append, In, here, there, update_where}

module _ {ℓ κ} {A : Type ℓ} (R : A → A → Type κ) where
  -- every row agrees with every later one
  abbrev pub Pairwise : List A → Type κ
  Pairwise [] = Unit
  Pairwise (x ∷ xs) = All (R x) xs × Pairwise xs

  pub append-Pairwise :
      (xs : List A) (row : A) → Pairwise xs → All (λ x. R x row) xs → Pairwise (xs ++ row ∷ [])
  append-Pairwise [] row h k = (tt, tt)
  append-Pairwise (x ∷ xs) row (h, r) (k, ks) =
      (All-append (R x) xs (row ∷ []) h (k, tt), append-Pairwise xs row r ks)

module _ {ℓ} {A : Type ℓ} (p : A → Bool) (f : A → A) where
  -- what an update makes of a row
  abbrev pub updated : A → A
  updated x = if p x then f x else x

  pub updated-same {κ} :
      {B : Type κ} (g : A → B) → ((x : A) → g (f x) ≡ g x) → (x : A) → g (updated x) ≡ g x
  updated-same g k x = elim (Bool-cases (p x)) [ inl e ↦ rw e (k x) | inr e ↦ rw e refl ]

module _ {ℓ κ} {A : Type ℓ} (R : A → A → Type κ) (p : A → Bool) (f : A → A) where
  update-All :
      (x : A) (ys : List A)
      → ((y : A) → In y ys → R x y → R (updated p f x) (updated p f y))
      → All (R x) ys
      → All (R (updated p f x)) (update_where p f ys)
  unfolding update_where
  update-All x [] k h = tt
  update-All x (y ∷ ys) k (h, hs) = (k y (here refl) h, update-All x ys (λ z m. k z (there m)) hs)

  -- An update keeps the rows in agreement if it keeps each pair so.
  pub update-Pairwise :
      (xs : List A)
      → ((x y : A) → In x xs → In y xs → R x y → R (updated p f x) (updated p f y))
      → Pairwise R xs
      → Pairwise R (update_where p f xs)
  unfolding update_where
  update-Pairwise [] k h = tt
  update-Pairwise (x ∷ xs) k (h, hs) = (
    update-All x xs (λ y m. k x y (here refl) (there m)) h,
    update-Pairwise xs (λ y z m n. k y z (there m) (there n)) hs,
  )

-- ===== src/Common/Ownership.antt =====
-- common/ownership.util.ts: who may act on a row, and which coach a request is about.
use betti_coaching_calendar.Prelude.{
  Bool-cases, ℕ, ◌≡◌, ◌≢◌, ◌↔◌, ◌⊎◌, inl, inr, refl, not, ◌&&◌, ◌==◌, Option, none, some,
  if◌then◌else◌, get_or, arith,
}
use betti_coaching_calendar.Http.{Error, Message, plain, forbidden, not_found, Result, ok, err}
use betti_coaching_calendar.Schema.{Coach, CoachRole, is_admin, truthy}

-- `assertCoachOwnsOrIsAdmin`; `coach_id` is the field of that name of the row's table
unfoldable pub assert_coach_owns_or_is_admin {ℓ} :
    {A : Type ℓ} (coach_id : A → ℕ) → Coach → Option A → Message → Result A
assert_coach_owns_or_is_admin coach_id c none message = err (not_found message)
assert_coach_owns_or_is_admin coach_id c (some row) message =
    if not (coach_id row == c.id) && not (is_admin c.role) then err (not_found message) else ok row

unfoldable pub resolve_coach_scope : Coach → Option ℕ → Result ℕ
resolve_coach_scope c requested =
    if is_admin c.role
    then ok (get_or requested c.id)
    else if truthy requested && not (get_or requested c.id == c.id)
    then err (forbidden (plain "Cannot access another coach's data"))
    else ok c.id

module _ {ℓ} {A : Type ℓ} (coach_id : A → ℕ) (c : Coach) (message : Message) where
  -- A coach gets a row exactly when it exists and is the coach's own, or the coach is an admin.
  pub owns_iff :
      (found : Option A) (row : A)
      → (assert_coach_owns_or_is_admin coach_id c found message ≡ ok row)
        ↔ ((found ≡ some row) × ((coach_id row ≡ c.id) ⊎ (c.role ≡ CoachRole.admin)))
  unfolding assert_coach_owns_or_is_admin
  owns_iff none row = ground arith
  owns_iff (some r) row = ground arith

  -- A row of another coach and a missing row give one and the same answer to a plain coach.
  pub foreign_row_is_missing :
      (row : A)
      → c.role ≡ CoachRole.coach
      → coach_id row ≢ c.id
      → assert_coach_owns_or_is_admin coach_id c (some row) message
        ≡ assert_coach_owns_or_is_admin coach_id c none message
  unfolding assert_coach_owns_or_is_admin
  foreign_row_is_missing row role other = ground arith

  -- The check throws, or gives back the row that was found.
  pub owns-cases :
      (found : Option A)
      → ((e : Error) × (assert_coach_owns_or_is_admin coach_id c found message ≡ err e))
        ⊎ ((row : A) × (found ≡ some row)
            × (assert_coach_owns_or_is_admin coach_id c found message ≡ ok row))
  unfolding assert_coach_owns_or_is_admin
  owns-cases none = inl (not_found message, refl)
  owns-cases (some row) = elim (Bool-cases (not (coach_id row == c.id) && not (is_admin c.role))) [
    | inl e ↦ inl (not_found message, rw e)
    | inr e ↦ inr (row, refl, rw e)
  ]

-- An admin gets the coach that the request names, or the own id where it names none; a plain coach
-- gets the own id, exactly when the request names no coach, the empty id or the own one.
pub resolve_coach_scope_iff :
    (c : Coach) (requested : Option ℕ) (i : ℕ)
    → (resolve_coach_scope c requested ≡ ok i) ↔ (
        ((c.role ≡ CoachRole.admin) × (i ≡ get_or requested c.id))
        ⊎ ((c.role ≡ CoachRole.coach)
            × (i ≡ c.id)
            × ((requested ≡ none) ⊎ ((requested ≡ some 0) ⊎ (requested ≡ some c.id)))))
unfolding resolve_coach_scope
resolve_coach_scope_iff c none i = ground arith
resolve_coach_scope_iff c (some r) i = ground arith

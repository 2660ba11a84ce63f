-- ===== src/EventTypes/Order.antt =====
-- The place of a new service in the order of its coach's services.
use betti_coaching_calendar.Prelude.{
  ℕ, ◌≤◌, ◌<◌, ◌≡◌, ◌==◌, none, List, [], ◌∷◌, keep, All, All-map, All-In, In, Option-cases,
  Bool-cases, inl, inr, arith,
}
use betti_coaching_calendar.Http.{ok}
use betti_coaching_calendar.Action.{◌>>=◌}
use betti_coaching_calendar.Schema.{Db, Coach, EventType}
use betti_coaching_calendar.EventTypes.{
  CreateEventTypeDto, max_position, after, next_position, create,
}

abbrev next_of : ℕ → List EventType → ℕ
next_of coach_id es = after (max_position (keep (λ e. e.coach_id == coach_id) es))

next_of-grows :
    (coach_id : ℕ) (x : EventType) (es : List EventType)
    → next_of coach_id es ≤ next_of coach_id (x ∷ es)
unfolding max_position keep
next_of-grows coach_id x es =
    elim (Option-cases (max_position (keep (λ e. e.coach_id == coach_id) es))) [
      | inl m ↦ rw m (ground arith)
      | inr (n, m) ↦ elim (Bool-cases (x.coach_id == coach_id)) [
        | inl e ↦ rw (e, m) (ground arith)
        | inr e ↦ rw (e, m) (ground arith)
      ]
    ]

next_of-above :
    (coach_id : ℕ) (x : EventType) (es : List EventType)
    → x.coach_id ≡ coach_id
    → x.position < next_of coach_id (x ∷ es)
unfolding max_position keep
next_of-above coach_id x es h =
    elim (Option-cases (max_position (keep (λ e. e.coach_id == coach_id) es))) [
      | inl m ↦ ground arith
      | inr (n, m) ↦ ground arith
    ]

own_max :
    (coach_id : ℕ) (es : List EventType)
    → All (λ e. e.coach_id ≡ coach_id → e.position < next_of coach_id es) es
own_max coach_id [] = tt
own_max coach_id (x ∷ es) = (
  next_of-above coach_id x es,
  All-map (λ e. e.coach_id ≡ coach_id → e.position < next_of coach_id (x ∷ es)) es
      (λ e m k c. (let grows = next_of-grows coach_id x es in let below = k c in omega arith))
      (own_max coach_id es),
)

-- A service that is created without a position comes after every service that its coach has.
pub create_last :
    (id : ℕ) (coach : Coach) (dto : CreateEventTypeDto) (db db' : Db) (row e : EventType)
    → create id coach dto db ≡ (ok row, db')
    → dto.position ≡ none
    → In e db.event_types
    → e.coach_id ≡ coach.id
    → e.position < row.position
unfolding create next_position ◌>>=◌
create_last id coach dto db db' row e h absent m own =
    let k : row.position ≡ next_position coach.id db = ground arith in
    let below = All-In _ e db.event_types (own_max coach.id db.event_types) m own in rw k below

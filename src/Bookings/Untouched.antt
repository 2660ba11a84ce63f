-- ===== src/Bookings/Untouched.antt =====
-- Who can change a booking through bookings/bookings.controller.ts.
use betti_coaching_calendar.Prelude.{
  ℕ, ◌≡◌, ◌≢◌, ◌⊎◌, sym, ap, subst, ◌∙◌, ◌==◌, List, [], ◌∷◌, All, All-map, In, In-append_left,
  In-update_where, update_where, if◌then◌else◌, arith,
}
use betti_coaching_calendar.Schema.{Db, Booking, Coach, CoachRole}
use betti_coaching_calendar.World.{World, Env}
use betti_coaching_calendar.Common.Luxon.{Luxon}
use betti_coaching_calendar.Bookings.Calendar.{IsCalendar, one_row}
use betti_coaching_calendar.Bookings.Outcome.{reserve-ok, move-ok}
use betti_coaching_calendar.Bookings.Frame.{IsKept, MayManage, MayCancel}
use betti_coaching_calendar.Bookings.Safety.{IsRespected, IsCalendar-IsKept}
use betti_coaching_calendar.Bookings.Requests.{
  Request, create_booking, client_cancel, client_reschedule, coach_cancel, MayServe, serve,
  serve_kept,
}

-- A request that shows the manage token of the booking, or one to cancel it by its coach or an admin.
abbrev pub IsEntitled : Booking → Request → Type 0
IsEntitled c (create_booking dto origin_url) = ⊥
IsEntitled c (client_cancel token reason) = token ≡ c.manage_token
IsEntitled c (client_reschedule token text) = token ≡ c.manage_token
IsEntitled c (coach_cancel coach id reason) =
    (id ≡ c.id) × ((c.coach_id ≡ coach.id) ⊎ (coach.role ≡ CoachRole.admin))

-- What others commit between two attempts respects the calendar and leaves this row as it is.
pub record IsBystander (c : Booking) (env : Env) : Type 0 where
  pub respected : IsRespected env
  pub leaves : (k : ℕ) (db : Db) → In c db.bookings → In c (env.before_attempt k db).bookings

update-In :
    (c : Booking) (i : ℕ) (change : Booking → Booking) (bs : List Booking)
    → i ≢ c.id
    → In c bs
    → In c (update_where (λ b. b.id == i) change bs)
update-In c i change bs other m =
    let same : (if c.id == i then change c else c) ≡ c = ground arith in
    subst (λ x. In x (update_where (λ b. b.id == i) change bs)) same
      (In-update_where (λ b. b.id == i) change c bs m)

module _ (c : Booking) where
  abbrev IsOther : ℕ → Type 0
  IsOther i = i ≢ c.id

  abbrev HasRow : List Booking → Type 0
  HasRow bs = IsCalendar bs × In c bs

  HasRow-IsKept : (env : Env) → IsBystander c env → IsKept env IsOther HasRow
  HasRow-IsKept env o =
      let calendar = IsCalendar-IsKept env o.respected in
      record {
        others = λ k db h. (calendar.others k db h.0, o.leaves k db h.1);
        others_coach = calendar.others_coach;
        reserved = λ zone row seen db db' b h e.
            let (_, _, _, written) = reserve-ok zone row seen db db' b e in
            (
              calendar.reserved zone row seen db db' b h.0 e,
              rw written (In-append_left c db.bookings (row ∷ []) h.1),
            );
        moved = λ zone booking start_at end_at seen db db' b r h coach e.
            let (_, _, written) = move-ok zone booking start_at end_at seen db db' b e in
            let (sound, same) =
              calendar.moved zone booking start_at end_at seen db db' b tt h.0 coach e in
            ((sound, rw written (update-In c booking.id _ db.bookings r h.1)), same);
        changed = λ i change bs r s h.
            (calendar.changed i change bs tt s h.0, update-In c i change bs r h.1);
      }

  stranger-MayManage : (token : ℕ) → ¬ (token ≡ c.manage_token) → MayManage IsOther HasRow token
  stranger-MayManage token foreign b bs h m e same =
      foreign (sym e ∙ ap (λ (x : Booking). x.manage_token) (one_row bs b c h.0 m h.1 same))

  stranger-MayCancel :
      (coach : Coach) (id : ℕ)
      → ¬ ((id ≡ c.id) × ((c.coach_id ≡ coach.id) ⊎ (coach.role ≡ CoachRole.admin)))
      → MayCancel IsOther HasRow coach id
  stranger-MayCancel coach id foreign b bs h m e allowed same =
      let row = one_row bs b c h.0 m h.1 same in
      foreign (
        sym e ∙ same,
        subst (λ (x : Booking). (x.coach_id ≡ coach.id) ⊎ (coach.role ≡ CoachRole.admin)) row
            allowed,
      )

  stranger-MayServe : (request : Request) → ¬ IsEntitled c request → MayServe IsOther HasRow request
  stranger-MayServe (create_booking dto origin_url) foreign = tt
  stranger-MayServe (client_cancel token reason) foreign = stranger-MayManage token foreign
  stranger-MayServe (client_reschedule token text) foreign = stranger-MayManage token foreign
  stranger-MayServe (coach_cancel coach id reason) foreign = stranger-MayCancel coach id foreign

-- A booking stays in the table exactly as it is through any history of requests, whether they are
-- answered or refused, in which no client shows its manage token and neither its coach nor an admin
-- asks to cancel it: requests about other bookings and new bookings never touch it. This holds from
-- a table in which no two rows share an identifier or a token or are active for one coach at one
-- time, as long as what others commit between the attempts keeps the table so, removes no booking,
-- gives none to another coach and leaves this one as it is.
pub serve_untouched :
    (luxon : Luxon) (history : List (Env × Request)) (w : World) (c : Booking)
    → All (λ (step : Env × Request). IsBystander c step.0) history
    → All (λ (step : Env × Request). ¬ IsEntitled c step.1) history
    → IsCalendar w.db.bookings
    → In c w.db.bookings
    → In c (serve luxon history w).db.bookings
serve_untouched luxon history w c others strangers h m =
    (serve_kept luxon (IsOther c) (HasRow c) history w
      (All-map {P = λ (step : Env × Request). ¬ IsEntitled c step.1} _ history
        (λ step _ foreign. stranger-MayServe c step.1 foreign) strangers)
      (All-map {P = λ (step : Env × Request). IsBystander c step.0} _ history
        (λ step _ o. HasRow-IsKept c step.0 o) others)
      (h, m)).1

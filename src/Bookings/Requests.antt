-- ===== src/Bookings/Requests.antt =====
-- bookings/bookings.controller.ts: the requests that change bookings, and histories of them.
use betti_coaching_calendar.Prelude.{
  ℕ, ◌≤◌, ◌≡◌, ◌≢◌, ◌⊎◌, true, String, Option, List, [], ◌∷◌, All, All-In, All-map, All-of_In, In,
  here, there, arith,
}
use betti_coaching_calendar.Schema.{Booking, Coach, is_confirmed}
use betti_coaching_calendar.World.{World, Env}
use betti_coaching_calendar.Common.Luxon.{Luxon}
use betti_coaching_calendar.Bookings.Calendar.{IsCalendar, Compatible, Compatible-sym, clash}
use betti_coaching_calendar.Bookings.Service.{
  create, CreateBookingDto, cancel_by_client, cancel_by_coach, reschedule_by_client,
}
use betti_coaching_calendar.Bookings.Frame.{
  IsKept, MayManage, MayCancel, create-Keeps, cancel_by_client-Keeps, cancel_by_coach-Keeps,
}
use betti_coaching_calendar.Bookings.Rescheduled.{reschedule-Keeps}
use betti_coaching_calendar.Bookings.Safety.{IsRespected, Everything, IsCalendar-IsKept}

pub data Request : Type 0 where
  create_booking : CreateBookingDto → Option String → Request
  client_cancel : ℕ → Option String → Request
  client_reschedule : ℕ → String → Request
  coach_cancel : Coach → ℕ → String → Request

-- the rows that a request reaches, by a token or as a coach, are in `R`
abbrev pub MayServe : (R : ℕ → Type 0) (P : List Booking → Type 0) → Request → Type 0
MayServe R P (create_booking dto origin_url) = Unit {0}
MayServe R P (client_cancel token reason) = MayManage R P token
MayServe R P (client_reschedule token text) = MayManage R P token
MayServe R P (coach_cancel coach id reason) = MayCancel R P coach id

module _ (luxon : Luxon) where
  -- the world after a request, whether it was answered or refused
  unfoldable pub handle : Env → Request → World → World
  handle env (create_booking dto origin_url) w = (create luxon env dto origin_url w).1
  handle env (client_cancel token reason) w = (cancel_by_client luxon env token reason w).1
  handle env (client_reschedule token text) w = (reschedule_by_client luxon env token text w).1
  handle env (coach_cancel coach id reason) w = (cancel_by_coach luxon env coach id reason w).1

  -- a history; each request meets its own clock, answers and concurrent commits
  unfoldable pub serve : List (Env × Request) → World → World
  serve [] w = w
  serve ((env, request) ∷ rest) w = serve rest (handle env request w)

  -- Whatever the commits of others and the single writes to these rows keep, a request keeps.
  handle_kept :
      (R : ℕ → Type 0) (P : List Booking → Type 0) (env : Env) (request : Request) (w : World)
      → MayServe R P request
      → IsKept env R P
      → P w.db.bookings
      → P (handle env request w).db.bookings
  unfolding handle
  handle_kept R P env (create_booking dto origin_url) w may o h =
      (create-Keeps luxon env R P o dto origin_url).at w h
  handle_kept R P env (client_cancel token reason) w may o h =
      (cancel_by_client-Keeps luxon env R P o token reason may).at w h
  handle_kept R P env (client_reschedule token text) w may o h =
      (reschedule-Keeps luxon env R P o token text may).at w h
  handle_kept R P env (coach_cancel coach id reason) w may o h =
      (cancel_by_coach-Keeps luxon env R P o coach id reason may).at w h

  pub serve_kept :
      (R : ℕ → Type 0) (P : List Booking → Type 0) (history : List (Env × Request)) (w : World)
      → All (λ (step : Env × Request). MayServe R P step.1) history
      → All (λ (step : Env × Request). IsKept step.0 R P) history
      → P w.db.bookings
      → P (serve history w).db.bookings
  unfolding serve
  serve_kept R P [] w may o h = h
  serve_kept R P ((env, request) ∷ rest) w (may, mays) (o, os) h =
      serve_kept R P rest (handle env request w) mays os (handle_kept R P env request w may o h)

  every_request : (request : Request) → MayServe Everything IsCalendar request
  every_request (create_booking dto origin_url) = tt
  every_request (client_cancel token reason) = λ b bs h m e. tt
  every_request (client_reschedule token text) = λ b bs h m e. tt
  every_request (coach_cancel coach id reason) = λ b bs h m e allowed. tt

  -- If no two rows of the table of bookings share an identifier or a token, or are active for one
  -- coach at one time, that still holds after any history of requests, answered or refused, as long
  -- as what others commit between the attempts respects it and neither removes a booking nor gives
  -- it to another coach.
  pub serve-IsCalendar :
      (history : List (Env × Request)) (w : World)
      → All (λ (step : Env × Request). IsRespected step.0) history
      → IsCalendar w.db.bookings
      → IsCalendar (serve history w).db.bookings
  serve-IsCalendar history w o h =
      serve_kept Everything IsCalendar history w
        (All-of_In _ history (λ step _. every_request step.1))
        (All-map {P = λ (step : Env × Request). IsRespected step.0} _ history
          (λ step _ others. IsCalendar-IsKept step.0 others) o)
        h

Compatible-rows :
    (bs : List Booking) (b c : Booking)
    → IsCalendar bs
    → In b bs
    → In c bs
    → b.id ≢ c.id
    → Compatible b c
Compatible-rows [] b c h m n ne = elim m [ ]
Compatible-rows (x ∷ bs) b c (h, r) (here p) (here q) ne = absurd (ne (cc))
Compatible-rows (x ∷ bs) b c (h, r) (here p) (there n) ne =
    rw (← p) (All-In (Compatible x) c bs h n)
Compatible-rows (x ∷ bs) b c (h, r) (there m) (here q) ne =
    rw (← q) (Compatible-sym (All-In (Compatible x) b bs h m))
Compatible-rows (x ∷ bs) b c (h, r) (there m) (there n) ne = Compatible-rows bs b c r m n ne

pub apart :
    (b c : Booking)
    → Compatible b c
    → b.coach_id ≡ c.coach_id
    → is_confirmed b.status ≡ true
    → is_confirmed c.status ≡ true
    → (b.end_at ≤ c.start_at) ⊎ (c.end_at ≤ b.start_at)
unfolding clash
apart b c h coach p q = ground (arith, h.apart)

-- From a table in which no two rows share an identifier or a token or are active for one coach at
-- one time, whatever requests are served and however they end: two different active bookings of one
-- coach never share an instant, one ends before the other starts; as long as what others commit
-- between the attempts keeps the table so, removes no booking and gives none to another coach.
pub no_double_booking :
    (luxon : Luxon) (history : List (Env × Request)) (w : World) (b c : Booking)
    → All (λ (step : Env × Request). IsRespected step.0) history
    → IsCalendar w.db.bookings
    → In b (serve luxon history w).db.bookings
    → In c (serve luxon history w).db.bookings
    → b.id ≢ c.id
    → b.coach_id ≡ c.coach_id
    → is_confirmed b.status ≡ true
    → is_confirmed c.status ≡ true
    → (b.end_at ≤ c.start_at) ⊎ (c.end_at ≤ b.start_at)
no_double_booking luxon history w b c o h m n ne coach p q =
    apart b c (Compatible-rows _ b c (serve-IsCalendar luxon history w o h) m n ne) coach p q

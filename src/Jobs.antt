-- ===== src/Jobs.antt =====
-- jobs/notification-jobs.service.ts with `createMeetEvent` of google/google-calendar.service.ts: the
-- work that a queued notification does.
pub mod Attempts
pub mod Retries
pub mod Ready
pub mod Links
pub mod Liveness
use betti_coaching_calendar.Prelude.{
  ℕ, zero, suc, ◌≡◌, Bool, true, false, not, ◌&&◌, ◌||◌, ◌==◌, String, str_eq, str_append, Option,
  none, some, List, [], ◌∷◌, ◌++◌, find, update_where, or_else, get_or, if◌then◌else◌,
}
use betti_coaching_calendar.Http.{Error, failure, prisma_error, Result, ok, err}
use betti_coaching_calendar.Action.{
  Action, pure, throw, lift, gets, find_or_throw, throw_if, modify, ◌>>=◌, ◌>>◌,
}
use betti_coaching_calendar.Schema.{Db, Booking, EventType, Coach, is_google_meet}
use betti_coaching_calendar.World.{
  World, Env, NotificationKind, NotificationJobData, CalendarCall, insert_event, on_db,
}
use betti_coaching_calendar.Notifications.Formats.{Packages, has_text}
use betti_coaching_calendar.Notifications.Email.{EmailConfig}
use betti_coaching_calendar.Notifications.Service.{BookingWithRelations, SendEnv, notify}
use betti_coaching_calendar.Google.{get_authenticated_client, record_call}

-- what `calendar.events.insert` answers, with the address of the first video entry point
pub record InsertAnswer : Type 0 where
  pub id : Option String
  pub hangout_link : Option String
  pub video_uri : Option String

-- the answers from outside during one attempt at a job
pub record AttemptEnv : Type 0 where
  pub env : Env
  pub inserted : Result InsertAnswer
  -- what `booking.update` comes to for a row that is there
  pub stored : Result (Unit {0})
  pub sends : SendEnv

pub record MeetEventResult : Type 0 where
  pub event_id : String
  pub meet_link : String

abbrev pub meet_link_of : InsertAnswer → Option String
meet_link_of answer = or_else answer.hangout_link answer.video_uri

-- `if (!data.id || !meetLink) throw`
abbrev pub check_event : InsertAnswer → Result MeetEventResult
check_event answer =
    if has_text answer.id && has_text (meet_link_of answer)
    then ok (record { event_id = get_or answer.id ""; meet_link = get_or (meet_link_of answer) "" })
    else err (failure "Google Calendar did not return a Meet link")

abbrev pub is_booking : ℕ → Booking → Bool
is_booking id b = b.id == id

abbrev pub with_meet : MeetEventResult → Booking → Booking
with_meet meet b = record b {
  meet_link = some meet.meet_link;
  google_event_id = some meet.event_id;
}

abbrev pub set_bookings : (List Booking → List Booking) → World → World
set_bookings f w = record w { db = record w.db { bookings = f w.db.bookings } }

-- a Meet link has to be made: `booking.location !== GOOGLE_MEET || booking.meetLink`, negated
abbrev pub needs_link : Booking → Bool
needs_link b = is_google_meet b.location && not (has_text b.meet_link)

abbrev pub wants_link : NotificationKind → Bool
wants_link NotificationKind.cancelled = false
wants_link _ = true

module _ (e : AttemptEnv) where
  unfoldable pub create_meet_event : ℕ → String → ℕ → ℕ → Action World MeetEventResult
  create_meet_event coach_id title start_at end_at = do
    get_authenticated_client e.env coach_id
    modify (record_call (insert_event coach_id title start_at end_at))
    answer ← lift e.inserted
    lift (check_event answer)

  unfoldable pub make_link : BookingWithRelations → String → Action World BookingWithRelations
  unfolding update_where
  make_link b title = do
    meet ← create_meet_event b.booking.coach_id title b.booking.start_at b.booking.end_at
    row ← find_or_throw (λ w. find (is_booking b.booking.id) w.db.bookings) (prisma_error "P2025")
    lift e.stored
    modify (set_bookings (update_where (is_booking b.booking.id) (with_meet meet)))
    pure (record b { booking = with_meet meet row })

  -- the title of the event: that of the event type, and the client's name
  abbrev pub title_of : BookingWithRelations → String
  title_of b = str_append b.event_type.title (str_append " — " b.booking.client_name)

  unfoldable pub ensure_meet_link : BookingWithRelations → Action World BookingWithRelations
  ensure_meet_link b = if needs_link b.booking then make_link b (title_of b) else pure b

-- a row and those that it refers to; Prisma fails where one is gone
abbrev pub relations : Booking → Option EventType → Option Coach → Result BookingWithRelations
relations b (some event_type) (some coach) =
    ok (record { booking = b; event_type = event_type; coach = coach })
relations b _ _ = err (failure "PrismaClientUnknownRequestError")

-- `include: BOOKING_INCLUDE`
abbrev pub included : Booking → World → Result BookingWithRelations
included b w =
    relations b (find (λ t. t.id == b.event_type_id) w.db.event_types)
      (find (λ c. c.id == b.coach_id) w.db.coaches)

module _ (pk : Packages) (config : EmailConfig) (e : AttemptEnv) where
  unfoldable pub process_found : NotificationKind → BookingWithRelations → Action World (Unit {0})
  process_found kind b =
      (if wants_link kind then ensure_meet_link e b else pure b) >>= notify pk config e.sends kind

  -- a job whose booking is gone is dropped
  abbrev pub process_row : NotificationKind → Option Booking → Action World (Unit {0})
  process_row kind none w = (ok tt, w)
  process_row kind (some b) w = (lift (included b w) >>= process_found kind) w

  unfoldable pub process : NotificationJobData → Action World (Unit {0})
  unfolding find
  process job w = process_row job.kind (find (is_booking job.booking_id) w.db.bookings) w

-- `retryLimit` of the queue
abbrev pub retry_limit : ℕ
retry_limit = 3

abbrev pub succeeds {ℓ} : {A : Type ℓ} → Result A → Bool
succeeds (ok _) = true
succeeds (err _) = false

-- the registration with pg-boss, which runs a job again that threw, as long as retries are left; the
-- attempts are counted from 0
module _ (pk : Packages) (config : EmailConfig) (attempts : ℕ → AttemptEnv) where
  unfoldable pub work_from : ℕ → ℕ → NotificationJobData → Action World (Unit {0})
  work_from zero k job w = process pk config (attempts k) job w
  work_from (suc left) k job w =
      let first = process pk config (attempts k) job w in
      let rest = work_from left (suc k) job first.1 in if succeeds first.0 then first else rest

  unfoldable pub work : NotificationJobData → Action World (Unit {0})
  unfolding work_from
  work job = work_from retry_limit 0 job

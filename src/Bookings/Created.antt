-- ===== src/Bookings/Created.antt =====
-- What a successful `create` of bookings/bookings.service.ts says of the booking and leaves behind.
use betti_coaching_calendar.Prelude.{
  ℕ, ◌≤◌, ◌≡◌, true, String, Option, none, some, [], ◌∷◌, ◌++◌, any, Option-cases, inl, inr, arith,
}
use betti_coaching_calendar.Http.{ok}
use betti_coaching_calendar.Action.{Action, ◌>>=◌, ◌>>◌, pure}
use betti_coaching_calendar.Schema.{Db, Booking, EventType, Settings, same_location}
use betti_coaching_calendar.World.{World, Env, on_db, NotificationKind, NotificationJobData}
use betti_coaching_calendar.Common.Luxon.{Luxon, Zone}
use betti_coaching_calendar.Common.Retries.{IsSnapshot}
use betti_coaching_calendar.Settings as SettingsService
use betti_coaching_calendar.Bookings.Slot.{assert_same_calendar_day}
use betti_coaching_calendar.Bookings.Outcome.{IsBookable, IsInsertable}
use betti_coaching_calendar.Bookings.Service.{
  CreateBookingDto, enqueue, parse_start, new_booking, find_event_type,
}

-- the job that a request leaves in the queue
abbrev pub job_of : Booking → NotificationKind → NotificationJobData
job_of b kind = record { booking_id = b.id; coach_id = b.coach_id; kind = kind }

pub record IsCreated (luxon : Luxon) (env : Env) (dto : CreateBookingDto)
    (origin_url : Option String) (w w' : World) (b : Booking) : Type 0 where
  pub event_type : EventType
  pub settings : Settings
  pub start_at : ℕ
  pub profile : Db
  -- the event type exists, is active and offers the location
  pub found : find_event_type luxon env dto.event_type_id w ≡ some event_type
  pub active : event_type.is_active ≡ true
  pub offered : any (same_location dto.location) event_type.locations ≡ true
  -- the start is a date, and not in the past
  pub parsed : luxon.from_iso dto.start_at ≡ some start_at
  pub not_past : env.now ≤ start_at
  -- the booking is what was asked for, for the coach of the event type
  pub row : b ≡ new_booking luxon env dto event_type start_at origin_url
  -- it starts and ends on one date of the coach's calendar
  pub timezone : SettingsService.get event_type.coach_id w.db ≡ (ok settings, profile)
  pub same_day :
      (luxon.zone settings.business_timezone).date_of b.start_at
      ≡ (luxon.zone settings.business_timezone).date_of b.end_at
  -- it was free in the database of the transaction that wrote it, and within the schedule that the
  -- plain client saw while it ran
  pub transaction :
      (seen db : Db) × IsSnapshot env profile seen db
      × IsBookable seen
          (luxon.zone settings.business_timezone)
          b.coach_id
          b.start_at
          b.end_at
          none
          db
      × IsInsertable b db
      × (w'.db ≡ record db { bookings = db.bookings ++ b ∷ [] })
  -- one job is queued, and Google is not called
  pub queued : w'.jobs ≡ w.jobs ++ job_of b NotificationKind.confirmed ∷ []
  pub calls : w'.calls ≡ w.calls

pub parse-ok :
    (luxon : Luxon) (env : Env) (text locale : String) (w w' : World) (n : ℕ)
    → parse_start luxon env text locale w ≡ (ok n, w')
    → (luxon.from_iso text ≡ some n) × (env.now ≤ n) × (w' ≡ w)
unfolding parse_start ◌>>=◌
parse-ok luxon env text locale w w' n h = elim (Option-cases (luxon.from_iso text)) [
  | inl e ↦ absurd (ground arith)
  | inr (m, e) ↦ (ground arith, ground arith, ground arith)
]

pub enqueue-ok :
    (luxon : Luxon) (env : Env) (b : Booking) (kind : NotificationKind) (w w' : World)
    (x : Unit {0})
    → enqueue luxon env b.id b.coach_id kind w ≡ (ok x, w')
    → w' ≡ record w { jobs = w.jobs ++ job_of b kind ∷ [] }
unfolding enqueue
enqueue-ok luxon env b kind w w' x h = ground arith

pub on_db-ok :
    {A : Type 0} (m : Action Db A) (w w' : World) (a : A)
    → on_db m w ≡ (ok a, w')
    → (m w.db ≡ (ok a, w'.db)) × (w' ≡ record w { db = w'.db })
unfolding on_db
on_db-ok m w w' a h = (ground arith, ground arith)

pub same_day-ok :
    {B : Type 0} (zone : Zone) (a b : ℕ) (locale : String) (m : Action World B) (w w' : World)
    (x : B)
    → (assert_same_calendar_day zone a b locale >> m) w ≡ (ok x, w')
    → (zone.date_of a ≡ zone.date_of b) × (m w ≡ (ok x, w'))
unfolding assert_same_calendar_day ◌>>=◌
same_day-ok zone a b locale m w w' x h = (ground arith, ground arith)

pub pure-ok : {A : Type 0} (x a : A) (w w' : World) → pure x w ≡ (ok a, w') → (a ≡ x) × (w' ≡ w)
unfolding pure
pure-ok x a w w' h = (ground arith, ground arith)

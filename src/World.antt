-- ===== src/World.antt =====
-- What a request handler works on and what it gets from outside: the database and the queues that
-- it writes, the clock, the identifiers and the answers of the services that it calls.
use betti_coaching_calendar.Prelude.{ℕ, String, Option, List}
use betti_coaching_calendar.Http.{Error, Result}
use betti_coaching_calendar.Action.{Action}
use betti_coaching_calendar.Schema.{Db}
use betti_coaching_calendar.Notifications.Mail.{Message}

-- `NotificationKind` of jobs/notification-jobs.service.ts
pub data NotificationKind : Type 0 where
  confirmed cancelled rescheduled : NotificationKind

-- `NotificationJobData`
pub record NotificationJobData : Type 0 where
  pub booking_id : ℕ
  pub coach_id : ℕ
  pub kind : NotificationKind

-- A call of the Google Calendar API that was made.
pub data CalendarCall : Type 0 where
  -- coach, title, start and end
  insert_event : ℕ → String → ℕ → ℕ → CalendarCall
  -- coach and event
  delete_event : ℕ → String → CalendarCall

pub record World : Type 0 where
  pub db : Db
  -- the jobs that pg-boss holds, oldest first
  pub jobs : List NotificationJobData
  -- the calls of the Google Calendar API, oldest first
  pub calls : List CalendarCall
  -- the emails about bookings that a provider has accepted, oldest first
  pub mails : List Message

-- What Postgres does with one attempt of a serializable transaction.
pub data Attempt : Type 0 where
  commits : Attempt
  serialization_failure : Attempt
  breaks : Error → Attempt

-- The answers from outside during one request. Time stands still within a request.
pub record Env : Type 0 where
  pub now : ℕ
  -- the identifier and the token that a new booking gets
  pub new_id : ℕ
  pub new_token : ℕ
  -- attempt k of the transaction: what others have committed just before it, what it comes to,
  -- and what another connection sees of the database while it runs
  pub before_attempt : ℕ → Db → Db
  pub attempt : ℕ → Attempt
  pub other_connection : ℕ → Db → Db
  -- the error of `boss.send`, if it fails
  pub send_error : Option Error
  -- `decrypt` of common/crypto.util.ts under the configured key
  pub decrypt : String → Result String

module _ {A : Type 0} where
  -- a database operation of a handler
  abbrev put_db : World → Result A × Db → Result A × World
  put_db w (r, db) = (r, record w { db = db })

  unfoldable pub on_db : Action Db A → Action World A
  on_db m = λ w. put_db w (m w.db)

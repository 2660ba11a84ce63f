-- ===== src/Jobs/Liveness.antt =====
-- A notification is delivered in the end, and what that means.
use betti_coaching_calendar.Prelude.{ℕ, ◌≤◌, ◌≡◌, false, ◌&&◌, String}
use betti_coaching_calendar.Http.{Result, ok}
use betti_coaching_calendar.Schema.{Coach}
use betti_coaching_calendar.World.{World, NotificationJobData}
use betti_coaching_calendar.Notifications.Formats.{Packages}
use betti_coaching_calendar.Notifications.Email.{EmailConfig}
use betti_coaching_calendar.Notifications.Service.{BookingWithRelations}
use betti_coaching_calendar.Notifications.Reach.{IsReached}
use betti_coaching_calendar.Jobs.{AttemptEnv, needs_link, wants_link, retry_limit}
use betti_coaching_calendar.Jobs.Ready.{IsReady}

module _ (pk : Packages) (config : EmailConfig) (address : String) (coach : Coach)
    (secret : String) where
  -- the booking of a job that is ready, with its rows
  abbrev rows : {id : ℕ} {w : World} → IsReady id address coach secret w → BookingWithRelations
  rows r = record { booking = r.booking; event_type = r.event_type; coach = coach }

  -- What a delivered job left, from the point at which the emails of its last attempt were due.
  pub record IsDelivered (job : NotificationJobData) (e : AttemptEnv) (w' : World) : Type 0 where
    pub before : World
    pub subject : BookingWithRelations
    pub about : subject.booking.id ≡ job.booking_id
    pub addressed : subject.booking.client_email ≡ address
    pub coached : subject.coach ≡ coach
    -- a Meet booking has its link
    pub linked : (wants_link job.kind && needs_link subject.booking) ≡ false
    pub reached : IsReached pk config e.sends job.kind subject before w'

  module _ (attempts : ℕ → AttemptEnv) (job : NotificationJobData) where
    -- a job that ended well, in which of its attempts and with what
    pub record IsDone (r : Result (Unit {0}) × World) : Type 0 where
      pub succeeded : r.0 ≡ ok tt
      pub last : ℕ
      pub within : last ≤ retry_limit
      pub delivered : IsDelivered job (attempts last) r.1

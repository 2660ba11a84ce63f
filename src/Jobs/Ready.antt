-- ===== src/Jobs/Ready.antt =====
-- What an attempt at a job leaves of the rows that the next attempt needs.
use betti_coaching_calendar.Prelude.{
  ℕ, ◌≡◌, refl, ap, ◌∙◌, inl, inr, ◌⊎◌, ◌==◌, String, some, find, find-update_where, update_where,
  if◌then◌else◌, Bool-cases, arith,
}
use betti_coaching_calendar.Http.{Result, ok, err}
use betti_coaching_calendar.Action.{pure, continue, ◌>>=◌}
use betti_coaching_calendar.Schema.{Db, Booking, EventType, Coach, GoogleIntegration}
use betti_coaching_calendar.World.{World, NotificationKind}
use betti_coaching_calendar.Google.{get_authenticated_client}
use betti_coaching_calendar.Notifications.Formats.{Packages}
use betti_coaching_calendar.Notifications.Email.{EmailConfig}
use betti_coaching_calendar.Notifications.Service.{BookingWithRelations, notify}
use betti_coaching_calendar.Notifications.Delivery.{notify-IsQuiet}
use betti_coaching_calendar.Jobs.{
  AttemptEnv, is_booking, with_meet, needs_link, wants_link, create_meet_event, make_link,
  ensure_meet_link, process_found, title_of,
}
use betti_coaching_calendar.Jobs.Attempts.{make_link-IsAttempted}

-- the booking of a job is there, for a client's address and a coach, with the rows that it refers to,
-- and the calendar of the coach, whose token is stored as this text
pub record IsReady (id : ℕ) (address : String) (coach : Coach) (secret : String) (w : World)
    : Type 0 where
  pub booking : Booking
  pub event_type : EventType
  pub integration : GoogleIntegration
  pub found : find (is_booking id) w.db.bookings ≡ some booking
  pub typed : find (λ t. t.id == booking.event_type_id) w.db.event_types ≡ some event_type
  pub coached : find (λ c. c.id == booking.coach_id) w.db.coaches ≡ some coach
  pub addressed : booking.client_email ≡ address
  pub connected : find (λ i. i.coach_id == booking.coach_id) w.db.integrations ≡ some integration
  pub token : integration.refresh_token_encrypted ≡ secret

-- what an attempt can change: the booking gets a link, and settings are made
pub record IsMoved (id : ℕ) (w w' : World) : Type 0 where
  pub change : Booking → Booking
  pub same_id : (b : Booking) → (change b).id ≡ b.id
  pub same_client : (b : Booking) → (change b).client_email ≡ b.client_email
  pub same_type : (b : Booking) → (change b).event_type_id ≡ b.event_type_id
  pub same_coach : (b : Booking) → (change b).coach_id ≡ b.coach_id
  pub bookings :
      (w'.db.bookings ≡ w.db.bookings)
      ⊎ (w'.db.bookings ≡ update_where (is_booking id) change w.db.bookings)
  pub event_types : w'.db.event_types ≡ w.db.event_types
  pub coaches : w'.db.coaches ≡ w.db.coaches
  pub integrations : w'.db.integrations ≡ w.db.integrations

pub IsMoved-IsReady :
    (id : ℕ) (address : String) (coach : Coach) (secret : String) (w w' : World)
    → IsMoved id w w'
    → IsReady id address coach secret w
    → IsReady id address coach secret w'
IsMoved-IsReady id address coach secret w w' m r = elim m.bookings [
  | inl same ↦ record {
    booking = r.booking;
    event_type = r.event_type;
    integration = r.integration;
    found = ap (find (is_booking id)) same ∙ r.found;
    typed = ap (find (λ t. t.id == r.booking.event_type_id)) m.event_types ∙ r.typed;
    coached = ap (find (λ c. c.id == r.booking.coach_id)) m.coaches ∙ r.coached;
    addressed = r.addressed;
    connected = ap (find (λ i. i.coach_id == r.booking.coach_id)) m.integrations ∙ r.connected;
    token = r.token;
  }
  | inr moved ↦
      let b' = m.change r.booking in
      record {
        booking = b';
        event_type = r.event_type;
        integration = r.integration;
        found =
            ap (find (is_booking id)) moved
            ∙ find-update_where (is_booking id) m.change w.db.bookings r.booking
                (λ b. ap (λ i. i == id) (m.same_id b)) r.found;
        typed =
            ap (find (λ t. t.id == b'.event_type_id)) m.event_types
            ∙ ap (λ k. find (λ t. t.id == k) w.db.event_types) (m.same_type r.booking)
            ∙ r.typed;
        coached =
            ap (find (λ c. c.id == b'.coach_id)) m.coaches
            ∙ ap (λ k. find (λ c. c.id == k) w.db.coaches) (m.same_coach r.booking)
            ∙ r.coached;
        addressed = m.same_client r.booking ∙ r.addressed;
        connected =
            ap (find (λ i. i.coach_id == b'.coach_id)) m.integrations
            ∙ ap (λ k. find (λ i. i.coach_id == k) w.db.integrations) (m.same_coach r.booking)
            ∙ r.connected;
        token = r.token;
      }
]

pub still : (id : ℕ) (w : World) → IsMoved id w w
still id w = record {
  change = λ b. b;
  same_id = λ b. refl;
  same_client = λ b. refl;
  same_type = λ b. refl;
  same_coach = λ b. refl;
  bookings = inl refl;
  event_types = refl;
  coaches = refl;
  integrations = refl;
}

make_link-tables :
    (e : AttemptEnv) (r : BookingWithRelations) (title : String) (w : World)
    → ((make_link e r title w).1.db.event_types ≡ w.db.event_types)
      × ((make_link e r title w).1.db.coaches ≡ w.db.coaches)
      × ((make_link e r title w).1.db.integrations ≡ w.db.integrations)
unfolding make_link create_meet_event get_authenticated_client ◌>>=◌
make_link-tables e r title w = ground arith

make_link-IsMoved :
    (e : AttemptEnv) (r : BookingWithRelations) (title : String) (w : World)
    → find (is_booking r.booking.id) w.db.bookings ≡ some r.booking
    → IsMoved r.booking.id w (make_link e r title w).1
make_link-IsMoved e r title w f =
    let (made, a) = make_link-IsAttempted e r title w f in
    let (event_types, coaches, integrations) = make_link-tables e r title w in
    elim (Bool-cases made) [
      | inl k ↦
          let (m, text, stored) = a.meet k in
          record {
            change = with_meet m;
            same_id = λ b. refl;
            same_client = λ b. refl;
            same_type = λ b. refl;
            same_coach = λ b. refl;
            bookings = inr stored;
            event_types = event_types;
            coaches = coaches;
            integrations = integrations;
          }
      | inr k ↦ record {
        change = λ b. b;
        same_id = λ b. refl;
        same_client = λ b. refl;
        same_type = λ b. refl;
        same_coach = λ b. refl;
        bookings = inl (a.unmade k);
        event_types = event_types;
        coaches = coaches;
        integrations = integrations;
      }
    ]

pub ensure-IsMoved :
    (e : AttemptEnv) (kind : NotificationKind) (r : BookingWithRelations) (w : World)
    → find (is_booking r.booking.id) w.db.bookings ≡ some r.booking
    → IsMoved r.booking.id w ((if wants_link kind then ensure_meet_link e r else pure r) w).1
unfolding ensure_meet_link pure
ensure-IsMoved e kind r w f = elim (Bool-cases (wants_link kind)) [
  | inl k ↦ elim (Bool-cases (needs_link r.booking)) [
    | inl n ↦ rw (k, n) (make_link-IsMoved e r (title_of e r) w f)
    | inr n ↦ rw (k, n) (still r.booking.id w)
  ]
  | inr k ↦ rw k (still r.booking.id w)
]

module _ (pk : Packages) (config : EmailConfig) where
  IsMoved-notify :
      (e : AttemptEnv) (kind : NotificationKind) (id : ℕ) (b : BookingWithRelations) (w v : World)
      → IsMoved id w v
      → IsMoved id w (notify pk config e.sends kind b v).1
  IsMoved-notify e kind id b w v m =
      let q = notify-IsQuiet pk config e.sends kind b v in
      record {
        change = m.change;
        same_id = m.same_id;
        same_client = m.same_client;
        same_type = m.same_type;
        same_coach = m.same_coach;
        bookings = elim m.bookings [
          | inl k ↦ inl (ap (λ (d : Db). d.bookings) q.tables ∙ k)
          | inr k ↦ inr (ap (λ (d : Db). d.bookings) q.tables ∙ k)
        ];
        event_types = ap (λ (d : Db). d.event_types) q.tables ∙ m.event_types;
        coaches = ap (λ (d : Db). d.coaches) q.tables ∙ m.coaches;
        integrations = ap (λ (d : Db). d.integrations) q.tables ∙ m.integrations;
      }

  pub found-IsMoved :
      (e : AttemptEnv) (kind : NotificationKind) (r : BookingWithRelations) (w : World)
      → find (is_booking r.booking.id) w.db.bookings ≡ some r.booking
      → IsMoved r.booking.id w (process_found pk config e kind r w).1
  unfolding process_found ◌>>=◌
  found-IsMoved e kind r w f =
      go ((if wants_link kind then ensure_meet_link e r else pure r) w)
        (ensure-IsMoved e kind r w f)
    where
      go :
          (p : Result BookingWithRelations × World)
          → IsMoved r.booking.id w p.1
          → IsMoved r.booking.id w (continue (notify pk config e.sends kind) p).1
      go (ok b, v) m = IsMoved-notify e kind r.booking.id b w v m
      go (err x, v) m = m

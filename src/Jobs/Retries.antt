-- ===== src/Jobs/Retries.antt =====
-- How many calendar events the retries of a notification job make.
use betti_coaching_calendar.Prelude.{
  ℕ, suc, ◌+◌, ◌≤◌, ◌≡◌, refl, sym, ap, ◌∙◌, subst, true, String, Option, none, some, List, [], ◌∷◌,
  length, find, find_sound, find-update_where, if◌then◌else◌, Bool-cases, Option-cases, inl, inr,
  arith,
}
use betti_coaching_calendar.Http.{Result-cases, Result, ok, err}
use betti_coaching_calendar.Action.{Action, pure, continue, ◌>>=◌}
use betti_coaching_calendar.Schema.{Db, Booking, EventType, Coach}
use betti_coaching_calendar.World.{World, NotificationKind, NotificationJobData}
use betti_coaching_calendar.Notifications.Formats.{Packages}
use betti_coaching_calendar.Notifications.Email.{EmailConfig}
use betti_coaching_calendar.Notifications.Service.{BookingWithRelations, notify}
use betti_coaching_calendar.Notifications.Delivery.{notify-IsQuiet}
use betti_coaching_calendar.Jobs.{
  AttemptEnv, is_booking, with_meet, needs_link, wants_link, make_link, ensure_meet_link,
  process_found, process_row, process, title_of, relations, included,
}
use betti_coaching_calendar.Jobs.Attempts.{stores_link, make_link-IsAttempted}

-- the attempts in which Google did not give a usable answer, or its link could not be stored
abbrev pub failures : List AttemptEnv → ℕ
failures [] = 0
failures (e ∷ es) = if stores_link e then failures es else suc (failures es)

-- 1 while the booking still needs a link
abbrev debt : Option Booking → ℕ
debt none = 0
debt (some b) = if needs_link b then 1 else 0

abbrev potential : ℕ → World → ℕ
potential id w = length w.calls + debt (find (is_booking id) w.db.bookings)

abbrev bad : AttemptEnv → ℕ
bad e = if stores_link e then 0 else 1

pub relations-own :
    (b : Booking) (t : Option EventType) (c : Option Coach) (r : BookingWithRelations)
    → relations b t c ≡ ok r
    → r.booking ≡ b
relations-own b none c r h = cc
relations-own b (some t) none r h = cc
relations-own b (some t) (some c) r h = ground arith

make_link-potential :
    (e : AttemptEnv) (r : BookingWithRelations) (title : String) (w : World)
    → find (is_booking r.booking.id) w.db.bookings ≡ some r.booking
    → needs_link r.booking ≡ true
    → potential r.booking.id (make_link e r title w).1 ≤ potential r.booking.id w + bad e
make_link-potential e r title w f n =
    let b = r.booking in
    let (made, a) = make_link-IsAttempted e r title w f in
    let calls = a.calls in
    elim (Bool-cases made) [
      | inl k ↦
          let (m, text, stored) = a.meet k in
          let linked =
            find-update_where (is_booking b.id) (with_meet m) w.db.bookings b (λ x. refl) f in
          rw (stored, linked, f, n, text) (ground (arith, calls))
      | inr k ↦
          rw (a.unmade k, f, n)
            (elim (a.unusable k) [
              | inl u ↦ rw u (ground (arith, calls))
              | inr same ↦ rw same (ground arith)
            ])
    ]

ensure-potential :
    (e : AttemptEnv) (kind : NotificationKind) (r : BookingWithRelations) (w : World)
    → find (is_booking r.booking.id) w.db.bookings ≡ some r.booking
    → potential r.booking.id ((if wants_link kind then ensure_meet_link e r else pure r) w).1
      ≤ potential r.booking.id w + bad e
unfolding ensure_meet_link pure
ensure-potential e kind r w f = elim (Bool-cases (wants_link kind)) [
  | inl k ↦ elim (Bool-cases (needs_link r.booking)) [
    | inl n ↦ rw (k, n) (make_link-potential e r (title_of e r) w f n)
    | inr n ↦ rw (k, n) (ground arith)
  ]
  | inr k ↦ rw k (ground arith)
]

module _ (pk : Packages) (config : EmailConfig) where
  -- pg-boss runs the job again and again, each attempt with its own answers
  unfoldable pub run : NotificationJobData → List AttemptEnv → World → World
  run job [] w = w
  run job (e ∷ es) w = run job es (process pk config e job w).1

  -- the emails make no event and leave the bookings alone
  notify-potential :
      (e : AttemptEnv) (kind : NotificationKind) (id : ℕ) (m : Action World BookingWithRelations)
      (w : World)
      → potential id ((m >>= notify pk config e.sends kind) w).1 ≡ potential id (m w).1
  unfolding ◌>>=◌
  notify-potential e kind id m w = go (m w)
    where
      go :
          (r : Result BookingWithRelations × World)
          → potential id (continue (notify pk config e.sends kind) r).1 ≡ potential id r.1
      go (ok b, v) =
          let q = notify-IsQuiet pk config e.sends kind b v in
          rw (q.calls, ap (λ (d : Db). d.bookings) q.tables) refl
      go (err x, v) = refl

  found-potential :
      (e : AttemptEnv) (kind : NotificationKind) (r : BookingWithRelations) (w : World)
      → find (is_booking r.booking.id) w.db.bookings ≡ some r.booking
      → potential r.booking.id (process_found pk config e kind r w).1
        ≤ potential r.booking.id w + bad e
  unfolding process_found
  found-potential e kind r w f =
      rw
        (notify-potential e kind r.booking.id
          (if wants_link kind then ensure_meet_link e r else pure r) w)
        (ensure-potential e kind r w f)

  -- an attempt at a job whose booking is there
  row-potential :
      (e : AttemptEnv) (kind : NotificationKind) (b : Booking) (w : World)
      → find (is_booking b.id) w.db.bookings ≡ some b
      → potential b.id (process_row pk config e kind (some b) w).1 ≤ potential b.id w + bad e
  unfolding ◌>>=◌
  row-potential e kind b w f = elim (Result-cases (included b w)) [
    | inl (x, q) ↦ rw q (ground arith)
    | inr (r, q) ↦
        let own : r.booking ≡ b = relations-own b _ _ r q in
        let p =
          found-potential e kind r w
            (subst (λ (k : Booking). find (is_booking k.id) w.db.bookings ≡ some k) (sym own) f) in
        rw q (
          subst
            (λ (k : Booking).
              potential k.id (process_found pk config e kind r w).1 ≤ potential k.id w + bad e)
            own p)
  ]

  -- an attempt at the job
  process-potential :
      (job : NotificationJobData) (e : AttemptEnv) (w : World)
      → potential job.booking_id (process pk config e job w).1 ≤ potential job.booking_id w + bad e
  unfolding process
  process-potential job e w = elim (Option-cases (find (is_booking job.booking_id) w.db.bookings)) [
    | inl f ↦ rw f (ground arith)
    | inr (b, f) ↦
        let own : job.booking_id ≡ b.id =
          (let m = find_sound (is_booking job.booking_id) w.db.bookings {a = b} f in
            ground arith) in
        let f' : find (is_booking b.id) w.db.bookings ≡ some b =
          ap (λ i. find (is_booking i) w.db.bookings) (sym own) ∙ f in
        let q =
          subst
            (λ i.
              potential i (process_row pk config e job.kind (some b) w).1 ≤ potential i w + bad e)
            (sym own) (row-potential e job.kind b w f') in
        subst
          (λ (o : Option Booking).
            potential job.booking_id (process_row pk config e job.kind o w).1
            ≤ potential job.booking_id w + bad e)
          (sym f) q
  ]

  run-potential :
      (job : NotificationJobData) (attempts : List AttemptEnv) (w : World)
      → potential job.booking_id (run job attempts w)
        ≤ potential job.booking_id w + failures attempts
  unfolding run
  run-potential job [] w = ground arith
  run-potential job (e ∷ es) w =
      ground (arith, process-potential job e w, run-potential job es (process pk config e job w).1)

  -- However often a job is retried, and whatever else fails meanwhile, it calls Google for an event
  -- at most once more than there are attempts in which Google has no usable answer, or in which the
  -- update that stores its link in the booking fails.
  pub run_one_event :
      (job : NotificationJobData) (attempts : List AttemptEnv) (w : World)
      → length (run job attempts w).calls ≤ length w.calls + 1 + failures attempts
  run_one_event job attempts w = ground (arith, run-potential job attempts w)

-- ===== src/Bookings/Frame.antt =====
-- Properties of the table of bookings that every request of bookings/bookings.service.ts keeps,
-- once its single writes and the commits of others keep them.
use betti_coaching_calendar.Prelude.{
  ℕ, ◌≡◌, ◌⊎◌, refl, find, find_sound, not, ◌&&◌, ◌==◌, String, str_eq, Option, none, some, List,
  find-In, In, update_where, get_or, Bool-cases, inl, inr, arith,
}
use betti_coaching_calendar.Http.{ok}
use betti_coaching_calendar.Action.{Action}
use betti_coaching_calendar.Action.Keeps.{
  Keeps, Keeps-found, Keeps-read, Keeps-lift_bind, Keeps-modify, Keeps-pure, keeps_rules,
}
use betti_coaching_calendar.Schema.{is_google_meet, Db, Booking, CancelledBy, Coach, CoachRole}
use betti_coaching_calendar.World.{World, Env, on_db, NotificationKind}
use betti_coaching_calendar.Common.Luxon.{Luxon, Zone}
use betti_coaching_calendar.Common.Transaction.{run_serializable}
use betti_coaching_calendar.Common.Retries.{run_serializable-keeps}
use betti_coaching_calendar.Settings
use betti_coaching_calendar.Google.{delete_calendar_event, get_authenticated_client}
use betti_coaching_calendar.Bookings.Slot.{
  update_booking, reserve, move_booking, assert_same_calendar_day,
}
use betti_coaching_calendar.Bookings.Calendar.{IsHarmless}
use betti_coaching_calendar.Common.Ownership.{owns_iff}
use betti_coaching_calendar.Bookings.Service.{
  create, CreateBookingDto, find_by_manage_token, assert_confirmed, enqueue, parse_start,
  cancel_by_client, cancel_by_coach, apply_cancellation, cancel_change, drop_meet_event, clear_meet,
  assert_within_notice_window, delete_event_of,
}

-- The table holds a row with this identifier and this coach.
abbrev pub HasCoach : ℕ → ℕ → List Booking → Type 0
HasCoach i coach_id bs = (b : Booking) × In b bs × (b.id ≡ i) × (b.coach_id ≡ coach_id)

-- the booking is the coach's, or the coach is an admin
abbrev pub IsAllowed : Coach → Booking → Type 0
IsAllowed coach b = (b.coach_id ≡ coach.id) ⊎ (coach.role ≡ CoachRole.admin)

-- The writes of the service, to rows whose identifier is in `R`, and the commits of others keep `P`.
-- A booking that was read keeps its place and its coach.
pub record IsKept (env : Env) (R : ℕ → Type 0) (P : List Booking → Type 0) : Type 0 where
  pub others : (k : ℕ) (db : Db) → P db.bookings → P (env.before_attempt k db).bookings
  pub others_coach :
      (i coach_id k : ℕ) (db : Db)
      → HasCoach i coach_id db.bookings
      → HasCoach i coach_id (env.before_attempt k db).bookings
  pub reserved :
      (zone : Zone) (row : Booking) (seen db db' : Db) (b : Booking)
      → P db.bookings
      → reserve zone row seen db ≡ (ok b, db')
      → P db'.bookings
  pub moved :
      (zone : Zone) (booking : Booking) (start_at end_at : ℕ) (seen db db' : Db) (b : Booking)
      → R booking.id
      → P db.bookings
      → HasCoach booking.id booking.coach_id db.bookings
      → move_booking zone booking start_at end_at seen db ≡ (ok b, db')
      → P db'.bookings × HasCoach booking.id booking.coach_id db'.bookings
  pub changed :
      (i : ℕ) (change : Booking → Booking) (bs : List Booking)
      → R i
      → IsHarmless change
      → P bs
      → P (update_where (λ b. b.id == i) change bs)

-- the rows that a manage token gives access to are in `R`, as long as `P` holds
abbrev pub MayManage : (R : ℕ → Type 0) (P : List Booking → Type 0) → ℕ → Type 0
MayManage R P token =
    (b : Booking) (bs : List Booking) → P bs → In b bs → b.manage_token ≡ token → R b.id

-- and those that a coach may cancel by this identifier
abbrev pub MayCancel : (R : ℕ → Type 0) (P : List Booking → Type 0) → Coach → ℕ → Type 0
MayCancel R P coach id =
    (b : Booking) (bs : List Booking) → P bs → In b bs → b.id ≡ id → IsAllowed coach b → R b.id

pub get-bookings : (coach_id : ℕ) (db : Db) → (Settings.get coach_id db).1.bookings ≡ db.bookings
unfolding Settings.get
get-bookings coach_id db = ground arith

cancel-IsHarmless :
    (luxon : Luxon) (env : Env) (by : CancelledBy) (reason : Option String)
    → IsHarmless (cancel_change luxon env by reason)
cancel-IsHarmless luxon env by reason = record {
  id = λ b. refl;
  token = λ b. refl;
  coach = λ b. refl;
  start = λ b. refl;
  end = λ b. refl;
  status = inl (λ b. refl);
}

clear-IsHarmless : (luxon : Luxon) (env : Env) → IsHarmless (clear_meet luxon env)
clear-IsHarmless luxon env = record {
  id = λ b. refl;
  token = λ b. refl;
  coach = λ b. refl;
  start = λ b. refl;
  end = λ b. refl;
  status = inr (λ b. refl);
}

module _ (luxon : Luxon) (env : Env) (R : ℕ → Type 0) (P : List Booking → Type 0)
    (kept : IsKept env R P) where
  abbrev IsFine : Db → Type 0
  IsFine db = P db.bookings

  abbrev IsSound : World → Type 0
  IsSound w = P w.db.bookings

  on_db-Keeps : {A : Type 0} (m : Action Db A) → Keeps IsFine m → Keeps IsSound (on_db m)
  unfolding on_db
  on_db-Keeps m k = record { at = λ w h. k.at w.db h }

  settings-Keeps : (coach_id : ℕ) → Keeps IsFine (Settings.get coach_id)
  settings-Keeps coach_id = record { at = λ db h. rw get-bookings h }

  harmless-Keeps :
      (i : ℕ) (change : Booking → Booking)
      → R i
      → IsHarmless change
      → Keeps IsFine (update_booking i change)
  unfolding update_booking
  harmless-Keeps i change r s = search (
    keeps_rules,
    Keeps-modify,
    λ (db : Db) (h : IsFine db). kept.changed i change db.bookings r s h,
  )

  reserve-Keeps :
      (zone : Zone) (row : Booking) → Keeps IsFine (run_serializable env (reserve zone row))
  reserve-Keeps zone row = record {
    at = run_serializable-keeps IsFine env (reserve zone row) kept.others (kept.reserved zone row);
  }

  pub enqueue-Keeps :
      (id coach_id : ℕ) (kind : NotificationKind)
      → Keeps IsSound (enqueue luxon env id coach_id kind)
  unfolding enqueue
  enqueue-Keeps id coach_id kind = record { at = λ w h. ground arith }

  parse-Keeps : (text locale : String) → Keeps IsSound (parse_start luxon env text locale)
  unfolding parse_start
  parse-Keeps text locale = search keeps_rules

  pub create-Keeps :
      (dto : CreateBookingDto) (origin_url : Option String)
      → Keeps IsSound (create luxon env dto origin_url)
  unfolding create assert_same_calendar_day
  create-Keeps dto origin_url =
      search (keeps_rules, on_db-Keeps, settings-Keeps, parse-Keeps, reserve-Keeps, enqueue-Keeps)
        depth 25

  delete-Keeps :
      (coach_id : ℕ) (event : String) → Keeps IsSound (delete_calendar_event env coach_id event)
  unfolding delete_calendar_event get_authenticated_client
  delete-Keeps coach_id event =
      search (keeps_rules, Keeps-modify, λ (w : World) (h : IsSound w). h) depth 12

  delete_of-Keeps :
      (coach_id : ℕ) (event : Option String)
      → Keeps IsSound (delete_event_of luxon env coach_id event)
  delete_of-Keeps coach_id none = Keeps-pure tt
  delete_of-Keeps coach_id (some event) = elim (Bool-cases (str_eq event "")) [
    | inl e ↦ rw e (Keeps-pure tt)
    | inr e ↦ rw e (delete-Keeps coach_id event)
  ]

  cancellation-Keeps :
      (booking : Booking) (by : CancelledBy) (reason : Option String)
      → R booking.id
      → Keeps IsSound (apply_cancellation luxon env booking by reason)
  unfolding apply_cancellation
  cancellation-Keeps booking by reason r =
      search (keeps_rules, delete_of-Keeps, on_db-Keeps, harmless-Keeps, cancel-IsHarmless) depth 8

  notice-Keeps :
      (coach_id start_at : ℕ) (locale : String)
      → Keeps IsSound (assert_within_notice_window luxon env coach_id start_at locale)
  unfolding assert_within_notice_window
  notice-Keeps coach_id start_at locale = search (keeps_rules, on_db-Keeps, settings-Keeps) depth 8

  pub managed :
      (token : ℕ) (b : Booking) (w : World)
      → MayManage R P token
      → IsSound w
      → find (λ x. x.manage_token == token) w.db.bookings ≡ some b
      → R b.id
  managed token b w may h found =
      let hit = find_sound (λ x. x.manage_token == token) w.db.bookings {a = b} found in
      may b w.db.bookings h (find-In _ w.db.bookings b found) (ground arith)

  pub cancel_by_client-Keeps :
      (token : ℕ) (reason : Option String)
      → MayManage R P token
      → Keeps IsSound (cancel_by_client luxon env token reason)
  unfolding cancel_by_client find_by_manage_token assert_confirmed
  cancel_by_client-Keeps token reason may =
      Keeps-found (λ b. R b.id) _ _ _ (λ b w h found. managed token b w may h found)
        (λ b r. search (keeps_rules, notice-Keeps, cancellation-Keeps, enqueue-Keeps) depth 20)

  picked :
      (coach : Coach) (id : ℕ) (b : Booking) (w : World)
      → MayCancel R P coach id
      → IsSound w
      → find (λ x. x.id == id) w.db.bookings ≡ some b
      → IsAllowed coach b
      → R b.id
  picked coach id b w may h found allowed =
      let hit = find_sound (λ x. x.id == id) w.db.bookings {a = b} found in
      may b w.db.bookings h (find-In _ w.db.bookings b found) (ground arith) allowed

  pub cancel_by_coach-Keeps :
      (coach : Coach) (id : ℕ) (reason : String)
      → MayCancel R P coach id
      → Keeps IsSound (cancel_by_coach luxon env coach id reason)
  unfolding cancel_by_coach assert_confirmed
  cancel_by_coach-Keeps coach id reason may =
      Keeps-read (λ found. (b : Booking) → found ≡ some b → IsAllowed coach b → R b.id) _ _
        (λ w h b found allowed. picked coach id b w may h found allowed)
        (λ found access. Keeps-lift_bind _ _ (λ b owned.
          let (here_it_is, allowed) = (owns_iff (λ x. x.coach_id) coach _ found b).0 owned in
          let r = access b here_it_is allowed in
          search (keeps_rules, cancellation-Keeps, enqueue-Keeps) depth 20))

  pub drop-Keeps : (b : Booking) → R b.id → Keeps IsSound (drop_meet_event luxon env b)
  unfolding drop_meet_event
  drop-Keeps b r =
      elim (Bool-cases
        (is_google_meet b.location && not (str_eq (get_or b.google_event_id "") ""))) [
          | inl e ↦ rw e (
              search (keeps_rules, delete-Keeps, on_db-Keeps, harmless-Keeps, clear-IsHarmless)
                depth 8)
          | inr e ↦ rw e (Keeps-pure b)
        ]

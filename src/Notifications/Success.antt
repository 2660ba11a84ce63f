-- ===== src/Notifications/Success.antt =====
-- When the emails about a booking go out.
use betti_coaching_calendar.Prelude.{
  ℕ, ◌≡◌, refl, ap, str_append, inl, inr, Bool, true, false, String, none, some, Bool-cases,
  Option-cases,
}
use betti_coaching_calendar.Http.{ok}
use betti_coaching_calendar.Action.{Action, ◌>>=◌}
use betti_coaching_calendar.Schema.{Db, Settings, Coach}
use betti_coaching_calendar.World.{World, NotificationKind, on_db}
use betti_coaching_calendar.Settings as SettingsService
use betti_coaching_calendar.Settings.{find_coach, find_settings, default_settings}
use betti_coaching_calendar.Notifications.Formats.{Packages, IcsEvent, has_text, build_ics_file}
use betti_coaching_calendar.Notifications.Content.{EmailRecipient, client, coach}
use betti_coaching_calendar.Notifications.Email.{EmailConfig, ProviderAnswer, SendEmailInput, send}
use betti_coaching_calendar.Notifications.Service.{
  BookingWithRelations, SendEnv, compose, promise_all, send_to, notify, build_context, ics_event,
}

-- what does not change from one attempt to the next: the key of Resend is configured and the
-- package ics makes a file of the event of this booking
pub record IsSetUp (pk : Packages) (config : EmailConfig) (id : ℕ) : Type 0 where
  pub key : has_text config.resend_api_key ≡ true
  pub ics :
      (event : IcsEvent)
      → event.uid ≡ str_append (pk.uuid id) "@betti-coaching-calendar"
      → (file : String) × (build_ics_file pk event ≡ ok file)

-- a provider takes a message
pub record Accepts (a : ProviderAnswer) : Type 0 where
  pub gmail : a.gmail ≡ ok tt
  pub resend : a.resend ≡ ok none

module _ (pk : Packages) (config : EmailConfig) (id : ℕ) (up : IsSetUp pk config id) where
  send_succeeds :
      (a : ProviderAnswer) (input : SendEmailInput) (w : World)
      → Accepts a
      → (send config a input w).0 ≡ ok tt
  unfolding send
  send_succeeds a input w k = elim (Bool-cases (has_text input.from)) [
    | inl f ↦ rw (f, up.key, k.resend) refl
    | inr f ↦ rw (f, k.gmail) refl
  ]

  uid :
      {i : ℕ}
      → i ≡ id
      → str_append (pk.uuid i) "@betti-coaching-calendar"
        ≡ str_append (pk.uuid id) "@betti-coaching-calendar"
  uid own = ap (λ j. str_append (pk.uuid j) "@betti-coaching-calendar") own

  compose_succeeds :
      (recipient : EmailRecipient) (kind : NotificationKind) (b : BookingWithRelations)
      (settings : Settings)
      → b.booking.id ≡ id
      → (input : SendEmailInput) × (compose pk recipient kind b settings ≡ ok input)
  unfolding compose
  compose_succeeds recipient NotificationKind.cancelled b settings own = (_, refl)
  compose_succeeds recipient NotificationKind.confirmed b settings own =
      let (file, q) = up.ics (ics_event pk b (build_context pk b settings)) (uid own) in
      rw q (_, refl)
  compose_succeeds recipient NotificationKind.rescheduled b settings own =
      let (file, q) = up.ics (ics_event pk b (build_context pk b settings)) (uid own) in
      rw q (_, refl)

  module _ (e : SendEnv) (to_client : Accepts e.client_answer)
      (to_coach : Accepts e.coach_answer) where
    send_to_succeeds :
        (kind : NotificationKind) (b : BookingWithRelations) (settings : Settings)
        (recipient : EmailRecipient) (w : World)
        → b.booking.id ≡ id
        → (send_to pk config e kind b settings recipient w).0 ≡ ok tt
    unfolding send_to ◌>>=◌
    send_to_succeeds kind b settings client w own =
        let (input, q) = compose_succeeds client kind b settings own in
        rw q (send_succeeds e.client_answer input w to_client)
    send_to_succeeds kind b settings coach w own =
        let (input, q) = compose_succeeds coach kind b settings own in
        rw q (send_succeeds e.coach_answer input w to_coach)

    both_succeed :
        (swapped : Bool) (m n : Action World (Unit {0}))
        → ((w : World) → (m w).0 ≡ ok tt)
        → ((w : World) → (n w).0 ≡ ok tt)
        → (w : World) → (promise_all swapped m n w).0 ≡ ok tt
    unfolding promise_all
    both_succeed true m n p q w = rw (q w) (p _)
    both_succeed false m n p q w = rw (p w) (q _)

    get_succeeds :
        (coach_id : ℕ) (db : Db) (c : Coach)
        → find_coach coach_id db ≡ some c
        → (row : Settings) × (db' : Db) × (SettingsService.get coach_id db ≡ (ok row, db'))
    unfolding SettingsService.get ◌>>=◌
    get_succeeds coach_id db c n = elim (Option-cases (find_settings coach_id db)) [
      | inl f ↦ rw (n, f) (_, _, refl)
      | inr (row, f) ↦ rw (n, f) (_, _, refl)
    ]

    pub notify_succeeds :
        (kind : NotificationKind) (b : BookingWithRelations) (w : World) (c : Coach)
        → b.booking.id ≡ id
        → find_coach b.booking.coach_id w.db ≡ some c
        → (notify pk config e kind b w).0 ≡ ok tt
    unfolding notify on_db ◌>>=◌
    notify_succeeds kind b w c own n =
        let (row, db, q) = get_succeeds b.booking.coach_id w.db c n in
        rw q (
          both_succeed e.coach_first _ _ (λ v. send_to_succeeds kind b row client v own)
            (λ v. send_to_succeeds kind b row coach v own) (record w { db = db }))

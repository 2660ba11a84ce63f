-- ===== src/Notifications/Notified.antt =====
-- What a notification that succeeds has sent.
use betti_coaching_calendar.Prelude.{
  ◌≡◌, ap, ◌∙◌, inl, inr, Bool, true, false, [], ◌∷◌, ◌++◌, if◌then◌else◌, arith,
}
use betti_coaching_calendar.Http.{ok}
use betti_coaching_calendar.Action.{Action}
use betti_coaching_calendar.Action.Inversion.{bind-ok}
use betti_coaching_calendar.Schema.{Db, Settings}
use betti_coaching_calendar.World.{World, NotificationKind, on_db}
use betti_coaching_calendar.Settings as SettingsService
use betti_coaching_calendar.Settings.{find_coach, find_settings}
use betti_coaching_calendar.Notifications.Formats.{Packages}
use betti_coaching_calendar.Notifications.Content.{EmailRecipient, client, coach}
use betti_coaching_calendar.Notifications.Email.{EmailConfig, SendEmailInput, accept}
use betti_coaching_calendar.Notifications.Service.{
  BookingWithRelations, SendEnv, compose, promise_all, send_to, notify,
}
use betti_coaching_calendar.Notifications.Delivery.{
  routed, accept_twice, promise_all-ok, send_to-ToGoes,
}

module _ (pk : Packages) (config : EmailConfig) (e : SendEnv) where
  -- What a successful notification went through and left.
  pub record IsNotified (kind : NotificationKind) (b : BookingWithRelations) (w w' : World)
      : Type 0 where
    pub settings : Settings
    pub db : Db
    pub read : SettingsService.get b.booking.coach_id w.db ≡ (ok settings, db)
    pub to_client : SendEmailInput
    pub to_coach : SendEmailInput
    pub client_email : compose pk client kind b settings ≡ ok to_client
    pub coach_email : compose pk coach kind b settings ≡ ok to_coach
    pub left : w' ≡ record w {
      db = db;
      mails =
          w.mails
          ++ (if e.coach_first
              then routed config to_coach ∷ routed config to_client ∷ []
              else routed config to_client ∷ routed config to_coach ∷ []);
    }

  -- a send that went well
  sent :
      (kind : NotificationKind) (b : BookingWithRelations) (settings : Settings)
      (recipient : EmailRecipient) (w w' : World)
      → send_to pk config e kind b settings recipient w ≡ (ok tt, w')
      → (input : SendEmailInput) × (compose pk recipient kind b settings ≡ ok input)
        × (w' ≡ accept (routed config input) w)
  sent kind b settings recipient w w' h =
      elim (send_to-ToGoes pk config e kind b settings recipient w) [
        | inl (input, c, s) ↦ (input, c, ground arith)
        | inr (x, s) ↦ absurd (ground arith)
      ]

  both-ok :
      (swapped : Bool) (kind : NotificationKind) (b : BookingWithRelations) (settings : Settings)
      (w w' : World)
      → promise_all swapped
          (send_to pk config e kind b settings client)
          (send_to pk config e kind b settings coach)
          w
        ≡ (ok tt, w')
      → (to_client : SendEmailInput) × (to_coach : SendEmailInput) × (compose pk client kind b
            settings
          ≡ ok to_client)
        × (compose pk coach kind b settings ≡ ok to_coach)
        × (w' ≡ record w {
          mails =
              w.mails
              ++ (if swapped
                  then routed config to_coach ∷ routed config to_client ∷ []
                  else routed config to_client ∷ routed config to_coach ∷ []);
        })
  both-ok true kind b settings w w' h =
      let (v, p, q) = promise_all-ok true _ _ w w' h in
      let (to_coach, c, left) = sent kind b settings coach w v p in
      let (to_client, d, left') = sent kind b settings client v w' q in
      (
        to_client,
        to_coach,
        d,
        c,
        left'
            ∙ (ap (accept (routed config to_client)) left
                ∙ accept_twice (routed config to_coach) (routed config to_client) w),
      )
  both-ok false kind b settings w w' h =
      let (v, p, q) = promise_all-ok false _ _ w w' h in
      let (to_client, d, left) = sent kind b settings client w v p in
      let (to_coach, c, left') = sent kind b settings coach v w' q in
      (
        to_client,
        to_coach,
        d,
        c,
        left'
            ∙ (ap (accept (routed config to_coach)) left
                ∙ accept_twice (routed config to_client) (routed config to_coach) w),
      )

  on_db-ok :
      (m : Action Db Settings) (w : World) (row : Settings) (w' : World)
      → on_db m w ≡ (ok row, w')
      → (db : Db) × (m w.db ≡ (ok row, db)) × (w' ≡ record w { db = db })
  unfolding on_db
  on_db-ok m w row w' h = ((m w.db).1, ground arith, ground arith)

  pub notify-ok :
      (kind : NotificationKind) (b : BookingWithRelations) (w w' : World)
      → notify pk config e kind b w ≡ (ok tt, w')
      → IsNotified kind b w w'
  unfolding notify
  notify-ok kind b w w' h =
      let (settings, mid, read, rest) =
        bind-ok (on_db (SettingsService.get b.booking.coach_id)) _ w h in
      let (db, found, moved) = on_db-ok _ w settings mid read in
      let (to_client, to_coach, c, d, left) = both-ok e.coach_first kind b settings mid w' rest in
      record {
        settings = settings;
        db = db;
        read = found;
        to_client = to_client;
        to_coach = to_coach;
        client_email = c;
        coach_email = d;
        left =
            left
            ∙ ap
                (λ (v : World). record v {
                  mails =
                      v.mails
                      ++ (if e.coach_first
                          then routed config to_coach ∷ routed config to_client ∷ []
                          else routed config to_client ∷ routed config to_coach ∷ []);
                })
                moved;
      }

-- ===== src/Notifications/Reach.antt =====
-- Whom a successful notification reaches, from which sender and with what.
use betti_coaching_calendar.Prelude.{
  ◌≡◌, refl, sym, inl, inr, Bool, true, false, not, String, Option, none, some, [], ◌∷◌, ◌++◌,
  get_or, is_some, subst, if◌then◌else◌, Bool-cases, arith,
}
use betti_coaching_calendar.Http.{Error, Result, ok, err, map_ok, Result-cases}
use betti_coaching_calendar.Schema.{Db, Settings}
use betti_coaching_calendar.World.{World, NotificationKind}
use betti_coaching_calendar.Settings as SettingsService
use betti_coaching_calendar.Notifications.Mail.{Provider, Message}
use betti_coaching_calendar.Notifications.Formats.{Packages, has_text, ics_answer, build_ics_file}
use betti_coaching_calendar.Notifications.Content.{EmailRecipient, client, coach}
use betti_coaching_calendar.Notifications.Email.{EmailConfig, SendEmailInput}
use betti_coaching_calendar.Notifications.Service.{
  BookingWithRelations, SendEnv, compose, notify, content, build_context, ics_content,
  recipient_address, recipient_locale, email_input,
}
use betti_coaching_calendar.Notifications.Delivery.{routed}
use betti_coaching_calendar.Notifications.Notified.{notify-ok}

abbrev pub is_cancelled : NotificationKind → Bool
is_cancelled NotificationKind.cancelled = true
is_cancelled _ = false

module _ (pk : Packages) (config : EmailConfig) where
  -- a message as one of the two people should get it
  pub record IsAddressed (kind : NotificationKind) (b : BookingWithRelations) (settings : Settings)
      (recipient : EmailRecipient) (to locale : String) (m : Message) : Type 0 where
    pub address : m.to ≡ to
    -- from the coach's own sender through Resend, or from the shared one through Gmail
    pub provider :
        m.provider ≡ (if has_text settings.email_from then Provider.resend else Provider.gmail)
    pub sender :
        some m.from
        ≡ (if has_text settings.email_from then settings.email_from else some config.email_from)
    -- the calendar file is left out of a cancellation alone
    pub file : is_some m.attachment ≡ not (is_cancelled kind)
    -- in the language of the reader
    pub words : m.html ≡ (content pk kind (build_context pk b settings) recipient locale).props

  -- as the service addresses it
  abbrev IsAsComposed :
      NotificationKind → BookingWithRelations → Settings → EmailRecipient → Message → Type 0
  IsAsComposed kind b settings recipient m =
      IsAddressed kind b settings recipient (recipient_address recipient b)
        (recipient_locale recipient b) m

  file_text : (o : Option String) → has_text o ≡ true → some (get_or o "") ≡ o
  file_text none h = absurd (ground arith)
  file_text (some t) h = refl

  answer-filled :
      (answer : Option Error × Option String) (text : String)
      → ics_answer answer ≡ ok text
      → has_text (some text) ≡ true
  answer-filled (some e, o) text h = cc
  answer-filled (none, o) text h = elim (Bool-cases (has_text o)) [
    | inl f ↦
        let q : some text ≡ o = (let r = file_text o f in ground (arith, r)) in
        subst (λ o. has_text o ≡ true) (sym q) f
    | inr f ↦ absurd (ground arith)
  ]

  map_ok-filled :
      (r : Result String) (file : Option String)
      → map_ok (λ (f : String). some f) r ≡ ok file
      → ((text : String) → r ≡ ok text → has_text (some text) ≡ true)
      → has_text file ≡ true
  map_ok-filled (err e) file h k = cc
  map_ok-filled (ok text) file h k =
      let q : some text ≡ file = ground arith in subst (λ o. has_text o ≡ true) q (k text refl)

  file-filled :
      (kind : NotificationKind) (b : BookingWithRelations) (settings : Settings)
      (file : Option String)
      → ics_content pk kind b (build_context pk b settings) ≡ ok file
      → has_text file ≡ not (is_cancelled kind)
  unfolding build_ics_file
  file-filled NotificationKind.cancelled b settings file h = ground arith
  file-filled NotificationKind.confirmed b settings file h =
      map_ok-filled _ file h (answer-filled (pk.create_event _))
  file-filled NotificationKind.rescheduled b settings file h =
      map_ok-filled _ file h (answer-filled (pk.create_event _))

  made-IsAsComposed :
      (recipient : EmailRecipient) (kind : NotificationKind) (b : BookingWithRelations)
      (settings : Settings) (file : Option String)
      → has_text file ≡ not (is_cancelled kind)
      → IsAsComposed kind b settings recipient (
          routed config (
            email_input recipient b
              (content pk kind
                (build_context pk b settings)
                recipient
                (recipient_locale recipient b))
              file
              settings.email_from))
  made-IsAsComposed recipient kind b settings file f =
      elim (Bool-cases (has_text settings.email_from)) [
        | inl s ↦ rw s (record {
          address = refl;
          provider = rw s refl;
          sender = rw s (file_text settings.email_from s);
          file = ground arith;
          words = refl;
        })
        | inr s ↦ rw s (record {
          address = refl;
          provider = rw s refl;
          sender = rw s refl;
          file = ground arith;
          words = refl;
        })
      ]

  -- how an email that was composed is addressed
  compose-IsAsComposed :
      (recipient : EmailRecipient) (kind : NotificationKind) (b : BookingWithRelations)
      (settings : Settings) (input : SendEmailInput)
      → compose pk recipient kind b settings ≡ ok input
      → IsAsComposed kind b settings recipient (routed config input)
  unfolding compose
  compose-IsAsComposed recipient kind b settings input h =
      elim (Result-cases (ics_content pk kind b (build_context pk b settings))) [
        | inl (e, c) ↦ absurd (ground arith)
        | inr (file, c) ↦
            let f = file-filled kind b settings file c in
            let q : email_input recipient b
                  (content pk kind (build_context pk b settings) recipient
                    (recipient_locale recipient b))
                  file settings.email_from
                ≡ input =
              ground arith in
            subst (λ i. IsAsComposed kind b settings recipient (routed config i)) q
              (made-IsAsComposed recipient kind b settings file f)
      ]

module _ (pk : Packages) (config : EmailConfig) (e : SendEnv) where
  -- What a successful notification left.
  pub record IsReached (kind : NotificationKind) (b : BookingWithRelations) (w w' : World)
      : Type 0 where
    pub settings : Settings
    pub db : Db
    pub read : SettingsService.get b.booking.coach_id w.db ≡ (ok settings, db)
    pub to_client : Message
    pub to_coach : Message
    pub client_addressed :
        IsAddressed pk config kind b settings client b.booking.client_email b.booking.locale
          to_client
    pub coach_addressed :
        IsAddressed pk config kind b settings coach b.coach.email b.coach.preferred_locale to_coach
    pub left : w' ≡ record w {
      db = db;
      mails =
          w.mails
          ++ (if e.coach_first then to_coach ∷ to_client ∷ [] else to_client ∷ to_coach ∷ []);
    }

  -- A successful notification about a booking hands exactly two emails to a provider, in the order
  -- of sending: one to the client's address in the language of the booking, and one to
  -- the coach's address in the language that the coach prefers, each from the
  -- coach's own sender through Resend where the settings have one and through the shared Gmail
  -- account otherwise, with a calendar file unless the booking was cancelled. Besides, only the
  -- profile that the read of the settings made can be new.
  pub notify_reaches :
      (kind : NotificationKind) (b : BookingWithRelations) (w w' : World)
      → notify pk config e kind b w ≡ (ok tt, w')
      → IsReached kind b w w'
  notify_reaches kind b w w' h =
      let n = notify-ok pk config e kind b w w' h in
      record {
        settings = n.settings;
        db = n.db;
        read = n.read;
        to_client = routed config n.to_client;
        to_coach = routed config n.to_coach;
        client_addressed =
            compose-IsAsComposed pk config client kind b n.settings n.to_client n.client_email;
        coach_addressed =
            compose-IsAsComposed pk config coach kind b n.settings n.to_coach n.coach_email;
        left = n.left;
      }

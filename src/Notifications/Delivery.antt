-- ===== src/Notifications/Delivery.antt =====
-- What the emails about an event of a booking come to.
use betti_coaching_calendar.Prelude.{
  ℕ, ◌≡◌, refl, sym, ap, ◌∙◌, ◌⊎◌, inl, inr, Bool, true, false, List, [], ◌∷◌, ◌++◌, append-nil,
  append_assoc, get_or, if◌then◌else◌, Bool-cases, Option-cases, arith,
}
use betti_coaching_calendar.Http.{Error, Result, ok, err, Result-cases}
use betti_coaching_calendar.Action.{Action, continue, ◌>>=◌}
use betti_coaching_calendar.Schema.{Db, Settings}
use betti_coaching_calendar.World.{World, NotificationKind, on_db}
use betti_coaching_calendar.Settings as SettingsService
use betti_coaching_calendar.Settings.{find_coach, find_settings}
use betti_coaching_calendar.Notifications.Mail.{Provider, Message}
use betti_coaching_calendar.Notifications.Formats.{Packages, has_text}
use betti_coaching_calendar.Notifications.Content.{EmailRecipient, client, coach}
use betti_coaching_calendar.Notifications.Email.{
  EmailConfig, ProviderAnswer, SendEmailInput, message, accept, send,
}
use betti_coaching_calendar.Notifications.Service.{
  BookingWithRelations, SendEnv, compose, first_error, promise_all, send_to, notify,
}

-- the message that an email becomes: from the sender of the coach through Resend, if there is one,
-- and through Gmail otherwise
abbrev pub routed : EmailConfig → SendEmailInput → Message
routed config input =
    if has_text input.from
    then message Provider.resend (get_or input.from "") input
    else message Provider.gmail config.email_from input

pub accept_twice :
    (m n : Message) (w : World) → accept n (accept m w) ≡ record w { mails = w.mails ++ m ∷ n ∷ [] }
accept_twice m n w = ap (λ ms. record w { mails = ms }) (append_assoc w.mails (m ∷ []) (n ∷ []))

-- an email goes out, or an error is thrown and none does
abbrev Goes : EmailConfig → SendEmailInput → World → Result (Unit {0}) × World → Type 0
Goes config input w r =
    (r ≡ (ok tt, accept (routed config input) w)) ⊎ ((x : Error) × (r ≡ (err x, w)))

send-Goes :
    (config : EmailConfig) (a : ProviderAnswer) (input : SendEmailInput) (w : World)
    → Goes config input w (send config a input w)
unfolding send
send-Goes config a input w = elim (Bool-cases (has_text input.from)) [
  | inl f ↦ elim (Bool-cases (has_text config.resend_api_key)) [
    | inl k ↦ elim (Result-cases a.resend) [
      | inl (x, r) ↦ rw (f, k, r) (inr (x, refl))
      | inr (error, r) ↦ elim (Option-cases error) [
        | inl n ↦ rw (f, k, r, n) (inl refl)
        | inr (text, n) ↦ rw (f, k, r, n) (inr (_, refl))
      ]
    ]
    | inr k ↦ rw (f, k) (inr (_, refl))
  ]
  | inr f ↦ elim (Result-cases a.gmail) [
    | inl (x, r) ↦ rw (f, r) (inr (x, refl))
    | inr (u, r) ↦ rw (f, r) (inl refl)
  ]
]

-- what two sends leave, whatever their outcome: the emails that went out are added
pub record IsSent (w w' : World) : Type 0 where
  pub out : List Message
  pub left : w' ≡ record w { mails = w.mails ++ out }

IsSent-trans : (u v w : World) → IsSent u v → IsSent v w → IsSent u w
IsSent-trans u v w p q = record {
  out = p.out ++ q.out;
  left = q.left ∙ rw p.left (ap (λ ms. record u { mails = ms }) (append_assoc u.mails p.out q.out));
}

promise_all-IsSent :
    (swapped : Bool) (m n : Action World (Unit {0}))
    → ((v : World) → IsSent v (m v).1)
    → ((v : World) → IsSent v (n v).1)
    → (w : World) → IsSent w (promise_all swapped m n w).1
unfolding promise_all
promise_all-IsSent true m n p q w = IsSent-trans w _ _ (q w) (p _)
promise_all-IsSent false m n p q w = IsSent-trans w _ _ (p w) (q _)

first_error-ok : (r s : Result (Unit {0})) → first_error r s ≡ ok tt → (r ≡ ok tt) × (s ≡ ok tt)
first_error-ok r s h = ground arith

-- both calls of a successful `Promise.all` succeed
pub promise_all-ok :
    (swapped : Bool) (m n : Action World (Unit {0})) (w w' : World)
    → promise_all swapped m n w ≡ (ok tt, w')
    → (v : World) × ((if swapped then n else m) w ≡ (ok tt, v))
      × ((if swapped then m else n) v ≡ (ok tt, w'))
unfolding promise_all
promise_all-ok true m n w w' h =
    let (p, q) = first_error-ok (n w).0 (m (n w).1).0 (ground arith) in
    ((n w).1, ground (arith, p), ground (arith, q, h))
promise_all-ok false m n w w' h =
    let (p, q) = first_error-ok (m w).0 (n (m w).1).0 (ground arith) in
    ((m w).1, ground (arith, p), ground (arith, q, h))

-- a read of the settings writes no other table
get-db :
    (coach_id : ℕ) (db : Db)
    → (rows : List Settings) × ((SettingsService.get coach_id db).1 ≡ record db { settings = rows })
unfolding SettingsService.get ◌>>=◌
get-db coach_id db = elim (Option-cases (find_coach coach_id db)) [
  | inl n ↦ rw n (db.settings, refl)
  | inr (c, n) ↦ elim (Option-cases (find_settings coach_id db)) [
    | inl f ↦ rw (n, f) (_, refl)
    | inr (row, f) ↦ rw (n, f) (db.settings, refl)
  ]
]

module _ (pk : Packages) (config : EmailConfig) (e : SendEnv) where
  -- an email of the service goes out as it was composed, or an error is thrown and none does
  abbrev ToGoes :
      NotificationKind
      → BookingWithRelations
      → Settings
      → EmailRecipient
      → World
      → Result (Unit {0}) × World
      → Type 0
  ToGoes kind b settings recipient w r =
      ((input : SendEmailInput) × (compose pk recipient kind b settings ≡ ok input)
        × (r ≡ (ok tt, accept (routed config input) w)))
      ⊎ ((x : Error) × (r ≡ (err x, w)))

  pub send_to-ToGoes :
      (kind : NotificationKind) (b : BookingWithRelations) (settings : Settings)
      (recipient : EmailRecipient) (w : World)
      → ToGoes kind b settings recipient w (send_to pk config e kind b settings recipient w)
  unfolding send_to ◌>>=◌
  send_to-ToGoes kind b settings recipient w =
      elim (Result-cases (compose pk recipient kind b settings)) [
        | inl (x, c) ↦ rw c (inr (x, refl))
        | inr (input, c) ↦ elim (send-Goes config _ input w) [
          | inl s ↦ rw c (inl (input, refl, s))
          | inr s ↦ rw c (inr s)
        ]
      ]

  ToGoes-IsSent :
      (kind : NotificationKind) (b : BookingWithRelations) (settings : Settings)
      (recipient : EmailRecipient) (w : World) (r : Result (Unit {0}) × World)
      → ToGoes kind b settings recipient w r
      → IsSent w r.1
  ToGoes-IsSent kind b settings recipient w r (inl (input, c, s)) = record {
    out = routed config input ∷ [];
    left = ap (λ (p : Result (Unit {0}) × World). p.1) s;
  }
  ToGoes-IsSent kind b settings recipient w r (inr (x, s)) = record {
    out = [];
    left =
        ap (λ (p : Result (Unit {0}) × World). p.1) s
        ∙ ap (λ ms. record w { mails = ms }) (sym (append-nil w.mails));
  }

  -- the two sends of a notification
  abbrev both : NotificationKind → BookingWithRelations → Settings → Action World (Unit {0})
  both kind b settings =
      promise_all e.coach_first (send_to pk config e kind b settings client)
        (send_to pk config e kind b settings coach)

  both-IsSent :
      (kind : NotificationKind) (b : BookingWithRelations) (settings : Settings) (w : World)
      → IsSent w (both kind b settings w).1
  both-IsSent kind b settings w =
      let go = λ (r : EmailRecipient) (v : World).
        ToGoes-IsSent kind b settings r v _ (send_to-ToGoes kind b settings r v) in
      promise_all-IsSent e.coach_first _ _ (go client) (go coach) w

  -- what a notification leaves alone
  pub record IsQuiet (w w' : World) : Type 0 where
    pub calls : w'.calls ≡ w.calls
    pub rows : List Settings
    pub tables : w'.db ≡ record w.db { settings = rows }

  pub notify-IsQuiet :
      (kind : NotificationKind) (b : BookingWithRelations) (w : World)
      → IsQuiet w (notify pk config e kind b w).1
  unfolding notify on_db ◌>>=◌
  notify-IsQuiet kind b w =
      let (rows, q) = get-db b.booking.coach_id w.db in
      go (SettingsService.get b.booking.coach_id w.db) rows q
    where
      go :
          (r : Result Settings × Db) (rows : List Settings)
          → r.1 ≡ record w.db { settings = rows }
          → IsQuiet w (continue (λ settings. both kind b settings) (r.0, record w { db = r.1 })).1
      go (err x, db) rows q = record { calls = refl; rows = rows; tables = q }
      go (ok settings, db) rows q =
          let s = both-IsSent kind b settings (record w { db = db }) in
          record {
            calls = ap (λ (v : World). v.calls) s.left;
            rows = rows;
            tables = ap (λ (v : World). v.db) s.left ∙ q;
          }

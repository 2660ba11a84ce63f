-- ===== src/Jobs/Links.antt =====
-- What an attempt makes of the Meet link, and when it succeeds.
use betti_coaching_calendar.Prelude.{
  ◌≡◌, refl, subst, inl, inr, ◌⊎◌, true, false, ◌&&◌, ◌==◌, String, some, find, if◌then◌else◌,
  Bool-cases, Option-cases, arith,
}
use betti_coaching_calendar.Http.{Error, ok, err, Result-cases}
use betti_coaching_calendar.Action.{pure, ◌>>=◌}
use betti_coaching_calendar.Schema.{GoogleIntegration}
use betti_coaching_calendar.World.{World, NotificationKind}
use betti_coaching_calendar.Google.{get_authenticated_client}
use betti_coaching_calendar.Notifications.Formats.{has_text}
use betti_coaching_calendar.Notifications.Service.{BookingWithRelations}
use betti_coaching_calendar.Notifications.Success.{Accepts}
use betti_coaching_calendar.Jobs.{
  AttemptEnv, MeetEventResult, meet_link_of, is_booking, with_meet, needs_link, wants_link,
  create_meet_event, make_link, ensure_meet_link, title_of,
}
use betti_coaching_calendar.Jobs.Attempts.{gives_link, link_text}

-- an attempt meets no failure: Google makes an event, its link is stored, and both emails are
-- accepted
pub record IsWorking (e : AttemptEnv) (secret : String) : Type 0 where
  -- the stored token of the coach can be read
  pub decrypts : (token : String) × (e.env.decrypt secret ≡ ok token)
  pub google : gives_link e.inserted ≡ true
  pub stored : e.stored ≡ ok tt
  pub to_client : Accepts e.sends.client_answer
  pub to_coach : Accepts e.sends.coach_answer

pub make_link_succeeds :
    (e : AttemptEnv) (r : BookingWithRelations) (title : String) (w : World) (i : GoogleIntegration)
    → IsWorking e i.refresh_token_encrypted
    → find (is_booking r.booking.id) w.db.bookings ≡ some r.booking
    → find (λ i. i.coach_id == r.booking.coach_id) w.db.integrations ≡ some i
    → (meet : MeetEventResult) × (has_text (some meet.meet_link) ≡ true)
      × ((make_link e r title w).0 ≡ ok (record r { booking = with_meet meet r.booking }))
unfolding make_link create_meet_event get_authenticated_client ◌>>=◌
make_link_succeeds e r title w i k f c =
    let (token, d) = k.decrypts in
    elim (Result-cases e.inserted) [
      | inl (x, a) ↦ absurd (let g = k.google in ground arith)
      | inr (answer, a) ↦ elim (Bool-cases (has_text answer.id && has_text (meet_link_of answer))) [
        | inl q ↦
            rw (c, d, a, q, f, k.stored) (_, link_text (meet_link_of answer) (ground arith), refl)
        | inr q ↦ absurd (let g = k.google in ground arith)
      ]
    ]

-- the booking that the emails of an attempt are about
pub record IsEnsured (kind : NotificationKind) (r r' : BookingWithRelations) : Type 0 where
  pub same_booking : r'.booking.id ≡ r.booking.id
  pub same_client : r'.booking.client_email ≡ r.booking.client_email
  pub same_start : r'.booking.start_at ≡ r.booking.start_at
  pub same_coach_id : r'.booking.coach_id ≡ r.booking.coach_id
  pub same_coach : r'.coach ≡ r.coach
  -- a Meet booking has its link
  pub linked : wants_link kind ≡ true → needs_link r'.booking ≡ false

make_link-cases :
    (e : AttemptEnv) (r : BookingWithRelations) (title : String) (w : World)
    → find (is_booking r.booking.id) w.db.bookings ≡ some r.booking
    → ((x : Error) × ((make_link e r title w).0 ≡ err x))
      ⊎ ((meet : MeetEventResult) × (has_text (some meet.meet_link) ≡ true)
          × ((make_link e r title w).0 ≡ ok (record r { booking = with_meet meet r.booking })))
unfolding make_link create_meet_event get_authenticated_client ◌>>=◌
make_link-cases e r title w f =
    elim (Option-cases (find (λ i. i.coach_id == r.booking.coach_id) w.db.integrations)) [
      | inl c ↦ rw c (inl (_, refl))
      | inr (i, c) ↦ elim (Result-cases (e.env.decrypt i.refresh_token_encrypted)) [
        | inl (x, d) ↦ rw (c, d) (inl (_, refl))
        | inr (token, d) ↦ elim (Result-cases e.inserted) [
          | inl (x, a) ↦ rw (c, d, a) (inl (_, refl))
          | inr (answer, a) ↦
              elim (Bool-cases (has_text answer.id && has_text (meet_link_of answer))) [
                | inl q ↦ elim (Result-cases e.stored) [
                  | inl (x, u) ↦ rw (c, d, a, q, f, u) (inl (_, refl))
                  | inr (v, u) ↦
                      rw (c, d, a, q, f, u)
                        (inr (_, link_text (meet_link_of answer) (ground arith), refl))
                ]
                | inr q ↦ rw (c, d, a, q) (inl (_, refl))
              ]
        ]
      ]
    ]

linked-IsEnsured :
    (kind : NotificationKind) (r : BookingWithRelations) (meet : MeetEventResult)
    → has_text (some meet.meet_link) ≡ true
    → IsEnsured kind r (record r { booking = with_meet meet r.booking })
linked-IsEnsured kind r meet text = record {
  same_booking = refl;
  same_client = refl;
  same_start = refl;
  same_coach_id = refl;
  same_coach = refl;
  linked = λ _. ground (arith, text);
}

same-IsEnsured :
    (kind : NotificationKind) (r : BookingWithRelations)
    → (wants_link kind ≡ true → needs_link r.booking ≡ false)
    → IsEnsured kind r r
same-IsEnsured kind r n = record {
  same_booking = refl;
  same_client = refl;
  same_start = refl;
  same_coach_id = refl;
  same_coach = refl;
  linked = n;
}

pub ensure-ok :
    (e : AttemptEnv) (kind : NotificationKind) (r r' : BookingWithRelations) (w v : World)
    → find (is_booking r.booking.id) w.db.bookings ≡ some r.booking
    → (if wants_link kind then ensure_meet_link e r else pure r) w ≡ (ok r', v)
    → IsEnsured kind r r'
unfolding ensure_meet_link pure
ensure-ok e kind r r' w v f = elim (Bool-cases (wants_link kind)) [
  | inl k ↦ elim (Bool-cases (needs_link r.booking)) [
    | inl n ↦ elim (make_link-cases e r (title_of e r) w f) [
      | inl (x, q) ↦ rw (k, n) (λ h. absurd (ground arith))
      | inr (meet, text, q) ↦
          rw (k, n)
            (λ h.
              let own : record r { booking = with_meet meet r.booking } ≡ r' =
                ground (arith, q, h) in
              subst (IsEnsured kind r) own (linked-IsEnsured kind r meet text))
    ]
    | inr n ↦
        rw (k, n)
          (λ h.
            let own : r ≡ r' = ground arith in
            subst (IsEnsured kind r) own (same-IsEnsured kind r (λ _. n)))
  ]
  | inr k ↦ rw k (λ h.
      let own : r ≡ r' = ground arith in
      subst (IsEnsured kind r) own (same-IsEnsured kind r (λ q. absurd (ground arith))))
]

pub ensure_succeeds :
    (e : AttemptEnv) (kind : NotificationKind) (r : BookingWithRelations) (w : World)
    (i : GoogleIntegration)
    → IsWorking e i.refresh_token_encrypted
    → find (is_booking r.booking.id) w.db.bookings ≡ some r.booking
    → find (λ i. i.coach_id == r.booking.coach_id) w.db.integrations ≡ some i
    → (r' : BookingWithRelations) × (((if wants_link kind then ensure_meet_link e r else pure r)
          w).0
        ≡ ok r')
unfolding ensure_meet_link pure
ensure_succeeds e kind r w i k f c = elim (Bool-cases (wants_link kind)) [
  | inl q ↦ elim (Bool-cases (needs_link r.booking)) [
    | inl n ↦
        let (meet, text, s) = make_link_succeeds e r (title_of e r) w i k f c in rw (q, n) (_, s)
    | inr n ↦ rw (q, n) (_, refl)
  ]
  | inr q ↦ rw q (_, refl)
]

-- ===== src/Jobs/Attempts.antt =====
-- What an attempt at making the Meet link of a booking comes to.
use betti_coaching_calendar.Prelude.{
  suc, ◌+◌, ◌≤◌, ◌≡◌, refl, ap, Bool, true, false, ◌&&◌, ◌==◌, String, Option, none, some, List, [],
  ◌∷◌, ◌++◌, length, get_or, find, update_where, Bool-cases, Option-cases, inl, inr, ◌⊎◌, arith,
}
use betti_coaching_calendar.Http.{Result-cases, Result, ok, err}
use betti_coaching_calendar.Action.{◌>>=◌}
use betti_coaching_calendar.Schema.{Booking}
use betti_coaching_calendar.World.{World, CalendarCall, insert_event}
use betti_coaching_calendar.Google.{get_authenticated_client}
use betti_coaching_calendar.Notifications.Formats.{has_text}
use betti_coaching_calendar.Notifications.Service.{BookingWithRelations}
use betti_coaching_calendar.Jobs.{
  AttemptEnv, InsertAnswer, MeetEventResult, meet_link_of, check_event, is_booking, with_meet,
  create_meet_event, make_link, succeeds,
}

-- Google answered with an event and a Meet link
abbrev pub gives_link : Result InsertAnswer → Bool
gives_link (ok answer) = succeeds (check_event answer)
gives_link (err e) = false

-- the attempt makes a link and stores it: the update of the row goes through too
abbrev pub stores_link : AttemptEnv → Bool
stores_link e = gives_link e.inserted && succeeds e.stored

length-snoc : (cs : List CalendarCall) (c : CalendarCall) → length (cs ++ c ∷ []) ≡ suc (length cs)
length-snoc [] c = refl
length-snoc (x ∷ cs) c = ap suc (length-snoc cs c)

-- what an attempt at making a link can come to
pub record IsAttempted (e : AttemptEnv) (b : Booking) (w w' : World) (made : Bool) : Type 0 where
  pub calls : length w'.calls ≤ length w.calls + 1
  pub usable : made ≡ true → stores_link e ≡ true
  pub unmade : made ≡ false → w'.db.bookings ≡ w.db.bookings
  pub meet :
      made ≡ true
      → (m : MeetEventResult) × (has_text (some m.meet_link) ≡ true)
        × (w'.db.bookings ≡ update_where (is_booking b.id) (with_meet m) w.db.bookings)
  pub unusable : made ≡ false → (stores_link e ≡ false) ⊎ (w'.calls ≡ w.calls)

pub link_text : (o : Option String) → has_text o ≡ true → has_text (some (get_or o "")) ≡ true
link_text none h = absurd (ground arith)
link_text (some t) h = h

pub make_link-IsAttempted :
    (e : AttemptEnv) (r : BookingWithRelations) (title : String) (w : World)
    → find (is_booking r.booking.id) w.db.bookings ≡ some r.booking
    → (made : Bool) × IsAttempted e r.booking w (make_link e r title w).1 made
unfolding make_link create_meet_event get_authenticated_client ◌>>=◌
make_link-IsAttempted e r title w own =
    let b = r.booking in
    let more = length-snoc w.calls (insert_event b.coach_id title b.start_at b.end_at) in
    elim (Option-cases (find (λ i. i.coach_id == b.coach_id) w.db.integrations)) [
      | inl f ↦ (
        false,
        rw f (record {
          calls = ground arith;
          usable = λ k. absurd (ground arith);
          unmade = λ k. refl;
          meet = λ k. absurd (ground arith);
          unusable = λ k. inr refl;
        }),
      )
      | inr (i, f) ↦ elim (Result-cases (e.env.decrypt i.refresh_token_encrypted)) [
        | inl (x, d) ↦ (
          false,
          rw (f, d)
              (record {
                calls = ground arith;
                usable = λ k. absurd (ground arith);
                unmade = λ k. refl;
                meet = λ k. absurd (ground arith);
                unusable = λ k. inr refl;
              }),
        )
        | inr (token, d) ↦ elim (Result-cases e.inserted) [
          | inl (x, a) ↦ (
            false,
            rw (f, d, a)
                (record {
                  calls = ground (arith, more);
                  usable = λ k. absurd (ground arith);
                  unmade = λ k. refl;
                  meet = λ k. absurd (ground arith);
                  unusable = λ k. inl refl;
                }),
          )
          | inr (answer, a) ↦
              elim (Bool-cases (has_text answer.id && has_text (meet_link_of answer))) [
                | inl k ↦ elim (Result-cases e.stored) [
                  | inl (x, u) ↦ (
                    false,
                    rw (f, d, a, k, own, u)
                        (record {
                          calls = ground (arith, more);
                          usable = λ k. absurd (ground arith);
                          unmade = λ _. refl;
                          meet = λ k. absurd (ground arith);
                          unusable = λ _. inl (ground (arith, k));
                        }),
                  )
                  | inr (v, u) ↦ (
                    true,
                    rw (f, d, a, k, own, u)
                        (record {
                          calls = ground (arith, more);
                          usable = λ _. ground (arith, k);
                          unmade = λ k. absurd (ground arith);
                          meet = λ _. (
                            record {
                              event_id = get_or answer.id "";
                              meet_link = get_or (meet_link_of answer) "";
                            },
                            link_text (meet_link_of answer) (ground arith),
                            refl,
                          );
                          unusable = λ k. absurd (ground arith);
                        }),
                  )
                ]
                | inr k ↦ (
                  false,
                  rw (f, d, a, k)
                      (record {
                        calls = ground (arith, more);
                        usable = λ k. absurd (ground arith);
                        unmade = λ _. refl;
                        meet = λ k. absurd (ground arith);
                        unusable = λ _. inl (ground (arith, k));
                      }),
                )
              ]
        ]
      ]
    ]

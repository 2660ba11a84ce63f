-- ===== src/Google/Connected.antt =====
-- What connecting a calendar leaves.
use betti_coaching_calendar.Prelude.{
  ℕ, ◌+◌, ◌/◌, ◌<◌, ◌≡◌, ◌≢◌, refl, ap, ◌∙◌, ◌⊎◌, inl, inr, true, false, String, str_eq, Option,
  some, find, find_sound, get_or, length, find-update_where, find-update_where_apart, find-snoc,
  find-snoc_new, Bool-cases, Option-cases, arith,
}
use betti_coaching_calendar.Http.{ok, Result-cases}
use betti_coaching_calendar.Action.{◌>>=◌}
use betti_coaching_calendar.Schema.{Db, Coach, GoogleIntegration}
use betti_coaching_calendar.World.{World, Env}
use betti_coaching_calendar.Common.Crypto.{
  Cipher, IsCipher, encrypt, decrypt, key_length, iv_length, decrypt-encrypt,
}
use betti_coaching_calendar.Auth.Token.{
  Token, Jwt, IsJwt, google_connect_claims, google_connect_state_ttl, sign_google_connect_state,
  verify_google_connect_state,
}
use betti_coaching_calendar.Google.{get_authenticated_client}
use betti_coaching_calendar.Google.Connect.{
  CallbackEnv, is_of, has_coach, renew, store, handle_callback, status_of, status, connect_token,
  callback,
}
use betti_coaching_calendar.Notifications.Formats.{has_text}

find-store :
    (new : GoogleIntegration) (db : Db)
    → find (is_of new.coach_id) (store new db).integrations ≡ some new
find-store new db = elim (Option-cases (find (is_of new.coach_id) db.integrations)) [
  | inl f ↦ rw f (find-snoc_new (is_of new.coach_id) db.integrations new (ground arith) f)
  | inr (old, f) ↦
      let own : old.coach_id ≡ new.coach_id =
        (let m = find_sound (is_of new.coach_id) db.integrations {a = old} f in ground arith) in
      let same : renew new old ≡ new = ground arith in
      rw f (
        find-update_where (is_of new.coach_id) (renew new) db.integrations old (λ _. refl) f
        ∙ ap (λ (i : GoogleIntegration). some i) same)
]

find-store_other :
    (new : GoogleIntegration) (db : Db) (other : ℕ)
    → other ≢ new.coach_id
    → find (is_of other) (store new db).integrations ≡ find (is_of other) db.integrations
find-store_other new db other k = elim (Option-cases (find (is_of new.coach_id) db.integrations)) [
  | inl f ↦ rw f (find-snoc (is_of other) db.integrations new (ground arith))
  | inr (old, f) ↦ rw f (
      find-update_where_apart (is_of other) (is_of new.coach_id) (renew new) db.integrations
        (λ _. refl) (λ x q. ground arith))
]

module _ {Byte : Type 0} (jwt : Jwt) (c : Cipher Byte) (key : String) (e : CallbackEnv Byte) where
  -- Whatever code and state a callback comes with, and whatever Google answers: it leaves the
  -- database as it was, or it succeeds, the state is an unexpired one that names a coach whose row
  -- is there, and only the integration of this coach is written.
  pub callback_safe :
      (code : String) (state : Token) (db : Db)
      → ((callback jwt c key e code state db).1 ≡ db)
        ⊎ ((new : GoogleIntegration) × (verify_google_connect_state jwt state e.now
              ≡ ok (some new.coach_id))
            × (has_coach new.coach_id db ≡ true)
            × (callback jwt c key e code state db ≡ (ok tt, store new db)))
  unfolding callback handle_callback ◌>>=◌
  callback_safe code state db = elim (Result-cases (verify_google_connect_state jwt state e.now)) [
    | inl (x, v) ↦ rw v (inl refl)
    | inr (who, v) ↦ elim (Bool-cases (str_eq code "")) [
      | inl k ↦ rw (v, k) (inl refl)
      | inr k ↦ elim (Result-cases e.tokens) [
        | inl (x, t) ↦ rw (v, k, t) (inl refl)
        | inr (token, t) ↦ elim (Bool-cases (has_text token)) [
          | inr h ↦ rw (v, k, t, h) (inl refl)
          | inl h ↦ elim (Result-cases e.user_email) [
            | inl (x, u) ↦ rw (v, k, t, h, u) (inl refl)
            | inr (email, u) ↦ elim (Result-cases (encrypt c e.iv (get_or token "") key)) [
              | inl (x, s) ↦ rw (v, k, t, h, u, s) (inl refl)
              | inr (stored, s) ↦ elim (Option-cases who) [
                | inl n ↦ rw (v, k, t, h, u, s, n) (inl refl)
                | inr (id, n) ↦ elim (Bool-cases (has_coach id db)) [
                  | inr l ↦ rw (v, k, t, h, u, s, n, l) (inl refl)
                  | inl l ↦ rw (v, k, t, h, u, s, n, l) (inr (_, refl, l, refl))
                ]
              ]
            ]
          ]
        ]
      ]
    ]
  ]

  -- What a callback leaves that went through.
  pub record IsConnected (coach : Coach) (token : String) (email : Option String) (env : Env)
      (w : World) (db' : Db) : Type 0 where
    pub shown : status coach.id db' ≡ record {
      connected = true;
      connected_email = some (get_or email "unknown");
      connected_at = some e.now;
    }
    -- a client of the calendar has the token that Google gave
    pub usable :
        get_authenticated_client env coach.id (record w { db = db' })
        ≡ (ok token, record w { db = db' })
    pub others :
        (other : ℕ)
        → other ≢ coach.id
        → find (is_of other) db'.integrations ≡ find (is_of other) w.db.integrations

  -- Under the documented behaviour of jsonwebtoken and node:crypto: a coach who comes back from
  -- Google within 5 minutes, with a code, for which Google gives a refresh token and the account, is
  -- connected: the status shows the account, the calendar is used with this very token from then on,
  -- and the integrations of all other coaches are as before.
  pub callback_connects :
      (coach : Coach) (signed_at : ℕ) (code token : String) (email : Option String) (env : Env)
      (w : World)
      → IsJwt jwt
      → IsCipher c
      → ((text : String) → env.decrypt text ≡ decrypt c text key)
      → length (c.from_base64 key) ≡ key_length
      → length e.iv ≡ iv_length
      → e.now / 1000 < signed_at / 1000 + google_connect_state_ttl
      → str_eq code "" ≡ false
      → e.tokens ≡ ok (some token)
      → has_text (some token) ≡ true
      → e.user_email ≡ ok email
      → has_coach coach.id w.db ≡ true
      → (db' : Db) × (callback jwt c key e code (connect_token jwt coach signed_at) w.db
          ≡ (ok tt, db'))
        × IsConnected coach token email env w db'
  unfolding callback handle_callback connect_token sign_google_connect_state
      verify_google_connect_state status get_authenticated_client ◌>>=◌
  callback_connects coach signed_at code token email env w law cipher d h k before q t f u l =
      let (stored, s, o) = decrypt-encrypt c e.iv token key cipher h k in
      let v =
        law.valid (google_connect_claims coach.id) google_connect_state_ttl signed_at e.now
          before in
      let new : GoogleIntegration = record {
        coach_id = coach.id;
        refresh_token_encrypted = stored;
        connected_email = get_or email "unknown";
        connected_at = e.now;
      } in
      let found = find-store new w.db in
      (
        store new w.db,
        rw (v, q, t, f, u, s, l) refl,
        record {
          shown = ap status_of found;
          usable = rw (found, d stored, o) refl;
          others = λ other n. find-store_other new w.db other n;
        },
      )

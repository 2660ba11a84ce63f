-- ===== src/Auth/Sessions.antt =====
-- What a password reset of auth/auth.service.ts leaves behind: which tokens still work.
use betti_coaching_calendar.Prelude.{
  ℕ, ◌+◌, ◌*◌, ◌/◌, ◌<◌, ◌≡◌, refl, sym, ap, ◌∙◌, inl, inr, true, false, ltb, String, some, List,
  find, find_sound, find-update_where, update_where, Bool-cases, Option-cases, arith,
}
use betti_coaching_calendar.Http.{Result-cases, Error, plain, unauthorized, ok, err}
use betti_coaching_calendar.Action.{◌>>=◌}
use betti_coaching_calendar.Schema.{Coach}
use betti_coaching_calendar.Auth.Token.{
  Token, is_empty, sign_password_reset_token, Jwt, IsJwt, Claims, issued_at, access_claims,
  AccessTokenPayload, token_ttl, password_reset_claims, password_reset_ttl, sign, verify,
  verify_password_reset_token, PasswordResetTokenPayload,
}
use betti_coaching_calendar.Auth.Scopes.{verify-sign}
use betti_coaching_calendar.Auth.Guard.{
  bearer, extract_token, authenticate, can_activate, find_coach_by_id, is_revoked,
}
use betti_coaching_calendar.Auth.Service.{
  Bcrypt, AuthEnv, Accounts, Session, by_id, set_password, session_of, pinned_iat, update_coach,
  reset_password,
}

-- What a successful reset went through.
pub record IsReset (jwt : Jwt) (bcrypt : Bcrypt) (env : AuthEnv) (token : Token)
    (new_password : String) (s s' : Accounts) (session : Session) : Type 0 where
  pub payload : PasswordResetTokenPayload
  pub coach : Coach
  pub verified : verify_password_reset_token jwt token env.now ≡ ok payload
  pub named : payload.coach_id ≡ some coach.id
  pub found : find (by_id coach.id) s.coaches ≡ some coach
  pub unused : is_revoked coach.sessions_revoked_at (some payload.iat) ≡ false
  pub answer :
      session
      ≡ session_of jwt bcrypt env
          (set_password (bcrypt.hash env.salt new_password) env.now coach)
          (some (pinned_iat jwt bcrypt env))
  pub stored :
      s'.coaches
      ≡ update_where
          (by_id coach.id)
          (set_password (bcrypt.hash env.salt new_password) env.now)
          s.coaches

module _ (jwt : Jwt) (bcrypt : Bcrypt) (env : AuthEnv) where
  pub reset_password-ok :
      (token : Token) (new_password : String) (s s' : Accounts) (session : Session)
      → reset_password jwt bcrypt env token new_password s ≡ (ok session, s')
      → IsReset jwt bcrypt env token new_password s s' session
  unfolding ◌>>=◌ reset_password find_coach_by_id update_coach
  reset_password-ok token new_password s s' session h =
      elim (Result-cases (verify_password_reset_token jwt token env.now)) [
        | inl (e, v) ↦ absurd (ground arith)
        | inr (payload, v) ↦ elim (Option-cases payload.coach_id) [
          | inl n ↦ absurd (ground arith)
          | inr (id, n) ↦ elim (Option-cases (find (by_id id) s.coaches)) [
            | inl f ↦ absurd (ground arith)
            | inr (coach, f) ↦
                let own : coach.id ≡ id =
                  (let m = find_sound (by_id id) s.coaches {a = coach} f in ground arith) in
                elim (Bool-cases (is_revoked coach.sessions_revoked_at (some payload.iat))) [
                  | inl u ↦ absurd (ground arith)
                  | inr u ↦ record {
                    payload = payload;
                    coach = coach;
                    verified = v;
                    named = n ∙ ap some (sym own);
                    found = ap (λ i. find (by_id i) s.coaches) own ∙ f;
                    unused = u;
                    answer = ground arith;
                    stored = ground arith;
                  }
                ]
          ]
        ]
      ]

  -- the coach's row after the reset
  find-reset :
      (token : Token) (new_password : String) (s s' : Accounts) (session : Session)
      → IsReset jwt bcrypt env token new_password s s' session
      → find (by_id session.coach.id) s'.coaches ≡ some session.coach
  find-reset token new_password s s' session r =
      let f = set_password (bcrypt.hash env.salt new_password) env.now in
      let e = find-update_where (by_id r.coach.id) f s.coaches r.coach (λ x. refl) r.found in
      rw (r.answer, r.stored) e

  reset_password-refused :
      (token : Token) (new_password : String) (s : Accounts) (e : Error)
      → verify_password_reset_token jwt token env.now ≡ err e
      → reset_password jwt bcrypt env token new_password s ≡ (err e, s)
  unfolding ◌>>=◌ reset_password
  reset_password-refused token new_password s e h = ground arith

  reset_password-used :
      (token : Token) (new_password : String) (s : Accounts) (payload : PasswordResetTokenPayload)
      (id : ℕ) (coach : Coach)
      → verify_password_reset_token jwt token env.now ≡ ok payload
      → payload.coach_id ≡ some id
      → find (by_id id) s.coaches ≡ some coach
      → is_revoked coach.sessions_revoked_at (some payload.iat) ≡ true
      → reset_password jwt bcrypt env token new_password s
        ≡ (err (unauthorized (plain "This reset link has already been used")), s)
  unfolding ◌>>=◌ reset_password find_coach_by_id
  reset_password-used token new_password s payload id coach v n f u = ground arith

module _ (jwt : Jwt) where
  -- when the guard lets a bearer in
  can_activate-ok :
      (token : Token) (at : ℕ) (coaches : List Coach) (c : Claims) (id : ℕ) (coach : Coach)
      → is_empty token ≡ false
      → jwt.verify token at ≡ some c
      → c.sub ≡ some id
      → find (by_id id) coaches ≡ some coach
      → is_revoked coach.sessions_revoked_at c.iat ≡ false
      → can_activate jwt (some (bearer token)) at coaches ≡ ok coach
  unfolding can_activate extract_token authenticate find_coach_by_id verify
  can_activate-ok token at coaches c id coach filled accepted sub found kept = ground arith

module _ (jwt : Jwt) (law : IsJwt jwt) (bcrypt : Bcrypt) (env : AuthEnv) where
  -- Under the laws of jsonwebtoken: the access token that a successful password reset answers with
  -- passes the guard, as the coach whose password was set, at any time before it expires.
  pub reset_password_admits :
      (token : Token) (new_password : String) (s s' : Accounts) (session : Session) (at : ℕ)
      → reset_password jwt bcrypt env token new_password s ≡ (ok session, s')
      → at / 1000 < pinned_iat jwt bcrypt env + token_ttl
      → can_activate jwt (some (bearer session.access_token)) at s'.coaches ≡ ok session.coach
  unfolding sign
  reset_password_admits token new_password s s' session at h before =
      let r = reset_password-ok jwt bcrypt env token new_password s s' session h in
      let f = set_password (bcrypt.hash env.salt new_password) env.now in
      let payload : AccessTokenPayload = record {
        sub = r.coach.id;
        email = r.coach.email;
        role = r.coach.role;
        iat = some (pinned_iat jwt bcrypt env);
      } in
      let claims = access_claims payload in
      let e = find-update_where (by_id r.coach.id) f s.coaches r.coach (λ x. refl) r.found in
      let valid = law.valid claims token_ttl env.now at (ground arith) in
      let filled = law.filled claims token_ttl env.now in
      rw r.answer (
        can_activate-ok jwt (sign jwt payload env.now) at s'.coaches
          (record claims { iat = some (issued_at claims.iat env.now) }) r.coach.id (f r.coach)
          filled valid refl (rw r.stored e) (ground arith))

  -- After a successful password reset, the guard refuses every token of that coach which the
  -- package accepts and which was issued in a second that began before the reset.
  pub reset_password_revokes :
      (token : Token) (new_password : String) (s s' : Accounts) (session : Session) (old : Token)
      (at : ℕ) (c : Claims) (iat : ℕ)
      → reset_password jwt bcrypt env token new_password s ≡ (ok session, s')
      → jwt.verify old at ≡ some c
      → c.sub ≡ some session.coach.id
      → c.iat ≡ some iat
      → iat * 1000 < env.now
      → authenticate jwt (some old) at s'.coaches
        ≡ err (unauthorized (plain "Session has been revoked, please log in again"))
  unfolding authenticate find_coach_by_id verify
  reset_password_revokes token new_password s s' session old at c iat h accepted sub issued before =
      let r = reset_password-ok jwt bcrypt env token new_password s s' session h in
      let e = find-reset jwt bcrypt env token new_password s s' session r in
      let revoked : session.coach.sessions_revoked_at ≡ some env.now = rw r.answer refl in
      ground (arith, e, revoked)

  -- Under the laws of jsonwebtoken, a reset link that was signed in a second that began before a
  -- successful reset with it is refused from then on, and changes nothing.
  pub reset_password_once :
      (coach_id signed_at : ℕ) (first second : String) (later : AuthEnv) (s s' : Accounts)
      (session : Session)
      → reset_password jwt bcrypt env (sign_password_reset_token jwt coach_id signed_at) first s
        ≡ (ok session, s')
      → signed_at / 1000 * 1000 < env.now
      → (e : Error) × (reset_password jwt bcrypt later
            (sign_password_reset_token jwt coach_id signed_at)
            second
            s'
          ≡ (err e, s'))
  unfolding sign_password_reset_token verify_password_reset_token
  reset_password_once coach_id signed_at first second later s s' session h before =
      let r = reset_password-ok jwt bcrypt env _ first s s' session h in
      let f = set_password (bcrypt.hash env.salt first) env.now in
      let e = find-update_where (by_id r.coach.id) f s.coaches r.coach (λ x. refl) r.found in
      let payload : PasswordResetTokenPayload = record {
        coach_id = some coach_id;
        iat = signed_at / 1000;
      } in
      let read_at = λ (at : ℕ).
        verify-sign jwt law (password_reset_claims coach_id) password_reset_ttl signed_at at in
      let same : r.payload ≡ payload =
        (let v = read_at env.now in let v' = r.verified in ground (arith, v, v')) in
      let own : some r.coach.id ≡ some coach_id =
        sym r.named ∙ ap (λ (p : PasswordResetTokenPayload). p.coach_id) same in
      elim (Bool-cases (ltb (later.now / 1000) (signed_at / 1000 + password_reset_ttl))) [
        | inl k ↦
            let v = read_at later.now in
            (
              _,
              reset_password-used jwt bcrypt later _ second s' payload r.coach.id (f r.coach)
                  (ground (arith, v)) (sym own) (rw r.stored e) (ground arith),
            )
        | inr k ↦
            let v = read_at later.now in
            (
              _,
              reset_password-refused jwt bcrypt later _ second s'
                  (unauthorized (plain "Invalid or expired reset link")) (ground (arith, v)),
            )
      ]

-- ===== src/Coaches/Invited.antt =====
-- An invited coach can sign in.
use betti_coaching_calendar.Prelude.{
  ◌≡◌, refl, true, false, String, eq_iff, Option, none, some, List, [], ◌∷◌, ◌++◌, find, any,
  Option-cases, inl, inr, arith,
}
use betti_coaching_calendar.Http.{Result-cases, ok}
use betti_coaching_calendar.Action.{◌>>=◌}
use betti_coaching_calendar.Schema.{Coach}
use betti_coaching_calendar.Auth.Token.{Jwt, verify_coach_invite_token}
use betti_coaching_calendar.Auth.Service.{
  Bcrypt, IsBcrypt, AuthEnv, Accounts, Session, by_email, session_of, others_write, login,
}
use betti_coaching_calendar.Coaches.{
  AcceptInviteDto, accept_invite, insert_coach, invited, collides,
}

-- What an accepted invitation went through.
pub record IsAccepted (jwt : Jwt) (bcrypt : Bcrypt) (env : AuthEnv) (dto : AcceptInviteDto)
    (s s' : Accounts) (session : Session) : Type 0 where
  pub email : String
  pub name : String
  pub url : Option String
  pub verified :
      verify_coach_invite_token jwt dto.token env.now
      ≡ ok (record { email = some email; name = some name; frontend_url = url })
  pub unknown : find (by_email email) s.coaches ≡ none
  pub row : session.coach ≡ invited env.new_id email name (bcrypt.hash env.salt dto.password) url
  pub free : any (collides session.coach) (env.meanwhile s.coaches) ≡ false
  pub answer : session ≡ session_of jwt bcrypt env session.coach none
  pub stored : s' ≡ record s { coaches = env.meanwhile s.coaches ++ session.coach ∷ [] }

module _ (jwt : Jwt) (bcrypt : Bcrypt) (env : AuthEnv) where
  -- An invitation is accepted only with a token that the invite verifier takes, for an address
  -- that no coach has; one row is added, with the name, address and site of the token, the role
  -- of a plain coach and the hash of the password, and it collides with no other row.
  pub accept_invite-ok :
      (dto : AcceptInviteDto) (s s' : Accounts) (session : Session)
      → accept_invite jwt bcrypt env dto s ≡ (ok session, s')
      → IsAccepted jwt bcrypt env dto s s' session
  unfolding accept_invite insert_coach others_write ◌>>=◌
  accept_invite-ok dto s s' session h =
      elim (Result-cases (verify_coach_invite_token jwt dto.token env.now)) [
        | inl (e, v) ↦ absurd (ground arith)
        | inr (payload, v) ↦ elim (Option-cases payload.email) [
          | inl n ↦ absurd (ground arith)
          | inr (email, n) ↦ elim (Option-cases (find (by_email email) s.coaches)) [
            | inr (c, f) ↦ absurd (ground arith)
            | inl f ↦ elim (Option-cases payload.name) [
              | inl m ↦ absurd (ground arith)
              | inr (name, m) ↦ record {
                email = email;
                name = name;
                url = payload.frontend_url;
                verified = ground (arith, v);
                unknown = f;
                row = ground arith;
                free = ground arith;
                answer = ground arith;
                stored = ground arith;
              }
            ]
          ]
        ]
      ]

  find-new :
      (row : Coach) (cs : List Coach)
      → any (collides row) cs ≡ false
      → find (by_email row.email) (cs ++ row ∷ []) ≡ some row
  unfolding find any
  find-new row [] h = let e = (eq_iff row.email row.email).1 refl in rw e refl
  find-new row (c ∷ cs) h = ground (arith, find-new row cs)

  -- Under the law of bcryptjs: the coach who accepted an invitation signs in with the address of
  -- the invitation and the password that was set, at any later time, as long as the table of
  -- coaches is as it was left.
  pub accept_invite-login :
      (later : AuthEnv) (dto : AcceptInviteDto) (s s' : Accounts) (session : Session)
      → IsBcrypt bcrypt
      → accept_invite jwt bcrypt env dto s ≡ (ok session, s')
      → login jwt bcrypt later session.coach.email dto.password s'
        ≡ (ok (session_of jwt bcrypt later session.coach none), s')
  unfolding login ◌>>=◌
  accept_invite-login later dto s s' session law h =
      let r = accept_invite-ok dto s s' session h in
      let e = find-new session.coach (env.meanwhile s.coaches) r.free in
      let recognised : bcrypt.compare dto.password session.coach.password_hash ≡ true =
        rw r.row (law.recognises env.salt dto.password) in
      rw r.stored (rw (e, recognised) refl)

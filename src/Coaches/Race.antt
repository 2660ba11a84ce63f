-- ===== src/Coaches/Race.antt =====
-- Two invitations to one site or one address: what the second answer is.
use betti_coaching_calendar.Prelude.{
  ◌≡◌, refl, ◌⊎◌, true, false, String, Option, none, some, List, [], ◌∷◌, ◌++◌, find, any,
  Option-cases, Bool-cases, inl, inr,
}
use betti_coaching_calendar.Http.{Error, Result, ok, err}
use betti_coaching_calendar.Action.{◌>>=◌}
use betti_coaching_calendar.Schema.{Coach}
use betti_coaching_calendar.Auth.Token.{Jwt, verify_coach_invite_token}
use betti_coaching_calendar.Auth.Service.{
  Bcrypt, AuthEnv, Accounts, Session, by_email, session_of, others_write,
}
use betti_coaching_calendar.Common.ExceptionFilter.{catch, status_of}
use betti_coaching_calendar.Coaches.{
  AcceptInviteDto, accept_invite, insert_coach, invited, collides,
}

-- The row was added to what others left, and none of theirs has its identifier, address or site.
pub record IsAdded (row : Coach) (session : Session) (others : List Coach)
    (run : Result Session × Accounts) : Type 0 where
  pub free : any (collides row) others ≡ false
  pub answer : run.0 ≡ ok session
  pub stored : run.1.coaches ≡ others ++ row ∷ []

-- A coach has the address, or a coach that others left has the address, the site or the identifier;
-- the answer is a 409 and no row was added.
pub record IsTaken (row : Coach) (seen others : List Coach) (run : Result Session × Accounts)
    : Type 0 where
  pub taken :
      ((c : Coach) × (find (by_email row.email) seen ≡ some c)) ⊎ (any (collides row) others ≡ true)
  pub answer : (e : Error) × (run.0 ≡ err e) × (status_of (catch e) ≡ 409)
  pub stored : (run.1.coaches ≡ seen) ⊎ (run.1.coaches ≡ others)

-- Whatever other requests write between the check of an invitation and its write, a token that the
-- invite verifier takes with an address and a name either gives its coach a row and a session, and
-- no other coach has the address, the site or the identifier; or one has, the answer that the
-- exception filter leaves is a 409, never a 500, and no row is added.
pub accept_invite_race :
    (jwt : Jwt) (bcrypt : Bcrypt) (env : AuthEnv) (dto : AcceptInviteDto) (s : Accounts)
    (email name : String) (url : Option String)
    → verify_coach_invite_token jwt dto.token env.now
      ≡ ok (record { email = some email; name = some name; frontend_url = url })
    → (row : Coach) × (row ≡ invited env.new_id email name (bcrypt.hash env.salt dto.password) url)
      × (IsAdded row
            (session_of jwt bcrypt env row none)
            (env.meanwhile s.coaches)
            (accept_invite jwt bcrypt env dto s)
          ⊎ IsTaken row s.coaches (env.meanwhile s.coaches) (accept_invite jwt bcrypt env dto s))
unfolding accept_invite insert_coach others_write ◌>>=◌ catch
accept_invite_race jwt bcrypt env dto s email name url v =
    let row : Coach = invited env.new_id email name (bcrypt.hash env.salt dto.password) url in
    (
      row,
      refl,
      elim (Option-cases (find (by_email email) s.coaches)) [
        | inr (c, f) ↦ inr (record {
          taken = inl (c, f);
          answer = rw (v, f) (_, refl, refl);
          stored = inl (rw (v, f) refl);
        })
        | inl f ↦ elim (Bool-cases (any (collides row) (env.meanwhile s.coaches))) [
          | inl t ↦ inr (record {
            taken = inr t;
            answer = rw (v, f, t) (_, refl, refl);
            stored = inr (rw (v, f, t) refl);
          })
          | inr t ↦
              inl (record { free = t; answer = rw (v, f, t) refl; stored = rw (v, f, t) refl })
        ]
      ],
    )

-- ===== src/Tests/Accounts.antt =====
-- Tokens, sessions and coaches at concrete inputs, with a signer and a hash that have the documented
-- laws.
use betti_coaching_calendar.Prelude.{
  ℕ, ◌/◌, ◌≡◌, ◌⊎◌, ◌++◌, refl, ◌&&◌, ltb, str_eq, eq_iff, Option, none, some, [], ◌∷◌, find, any,
  arith,
}
use betti_coaching_calendar.Http.{Error, plain, unauthorized, ok, err}
use betti_coaching_calendar.Action.{◌>>=◌}
use betti_coaching_calendar.Schema.{Coach}
use betti_coaching_calendar.Auth.Token.{
  Token, signed, sign_coach_invite_token, verify_coach_invite_token, sign_password_reset_token,
  verify_password_reset_token,
}
use betti_coaching_calendar.Auth.Guard.{bearer, can_activate, authenticate, find_coach_by_id}
use betti_coaching_calendar.Auth.Service.{
  Bcrypt, IsBcrypt, AuthEnv, Accounts, Session, session_of, set_password, update_coach,
  others_write, login, reset_password,
}
use betti_coaching_calendar.Auth.Scopes.{
  google_connect, verify_access, accepts, issue, is_for, expiry, accepts-issue,
}
use betti_coaching_calendar.Auth.Sessions.{
  reset_password_admits, reset_password_revokes, reset_password_once,
}
use betti_coaching_calendar.Coaches.{
  ChangePasswordDto, change_password, rehash, AcceptInviteDto, accept_invite, insert_coach, invited,
  revoke, revoke_sessions,
}
use betti_coaching_calendar.Coaches.Invited.{accept_invite-login}
use betti_coaching_calendar.Coaches.Race.{IsAdded, IsTaken, accept_invite_race}
use betti_coaching_calendar.Coaches.Revoked.{revoke_sessions_admits}
use betti_coaching_calendar.Coaches.Passwords.{change_password-login}
use betti_coaching_calendar.Tests.Data.{anna}
use betti_coaching_calendar.Tests.Tokens.{jwt, jwt-IsJwt}

abbrev bela : Coach
bela = record anna { id = 2; email = "bela@example.com"; frontend_url = none }

abbrev requested : Option ℕ
requested = some 2

abbrev bcrypt : Bcrypt
bcrypt = record { hash = λ salt text. text; compare = λ text hash. str_eq text hash }

bcrypt-IsBcrypt : IsBcrypt bcrypt
bcrypt-IsBcrypt = record { recognises = λ salt text. (eq_iff text text).1 refl }

abbrev env : ℕ → AuthEnv
env now = record { now = now; salt = "salt"; new_id = 2; meanwhile = λ cs. cs; mail_error = none }

abbrev accounts : Accounts
accounts = record {
  coaches = anna ∷ [];
  allowed_origins = record { id = 1; origin = "https://bela.example.com"; label = none } ∷ [];
  mails = [];
}

accepts-issue_example : accepts jwt verify_access (issue jwt (google_connect 1) 5000) 6000 ≡ (
    is_for (google_connect 1) verify_access && ltb (6000 / 1000) (expiry (google_connect 1) 5000))
accepts-issue_example = accepts-issue jwt jwt-IsJwt verify_access (google_connect 1) 5000 6000

-- a link that was signed at 5 s is used at 9 s
abbrev link : Token
link = sign_password_reset_token jwt 1 5000

abbrev new_anna : Coach
new_anna = set_password "new password" 9000 anna

abbrev new_session : Session
new_session = session_of jwt bcrypt (env 9000) new_anna (some 10)

abbrev after : Accounts
after = record accounts { coaches = new_anna ∷ [] }

reset_password_admits_example :
    can_activate jwt (some (bearer new_session.access_token)) 20000 after.coaches ≡ ok new_anna
unfolding reset_password find_coach_by_id sign_password_reset_token verify_password_reset_token
    ◌>>=◌ find update_coach
reset_password_admits_example =
    reset_password_admits jwt jwt-IsJwt bcrypt (env 9000) link "new password" accounts after
      new_session 20000 refl (omega arith)

-- a token that was issued at 8 s
abbrev old : Token
old =
    signed
      (record {
        sub = some 1;
        email = none;
        name = none;
        frontend_url = none;
        role = none;
        purpose = none;
        iat = some 8;
      })
      100

reset_password_revokes_example :
    authenticate jwt (some old) 20000 after.coaches
    ≡ err (unauthorized (plain "Session has been revoked, please log in again"))
unfolding reset_password find_coach_by_id sign_password_reset_token verify_password_reset_token
    ◌>>=◌ find update_coach
reset_password_revokes_example =
    reset_password_revokes jwt jwt-IsJwt bcrypt (env 9000) link "new password" accounts after
      new_session old 20000
      (record {
        sub = some 1;
        email = none;
        name = none;
        frontend_url = none;
        role = none;
        purpose = none;
        iat = some 8;
      })
      8 refl refl refl refl (omega arith)

reset_password_once_example :
    (e : Error) × (reset_password jwt bcrypt (env 10000) link "other" after ≡ (err e, after))
unfolding reset_password find_coach_by_id sign_password_reset_token verify_password_reset_token
    ◌>>=◌ find update_coach
reset_password_once_example =
    reset_password_once jwt jwt-IsJwt bcrypt (env 9000) 1 5000 "new password" "other" (env 10000)
      accounts after new_session refl (omega arith)

abbrev invitation : AcceptInviteDto
invitation = record {
  token = sign_coach_invite_token jwt "bela@example.com" "Bela" "https://bela.example.com" 5000;
  password = "password";
}

abbrev bela_row : Coach
bela_row = invited 2 "bela@example.com" "Bela" "password" (some "https://bela.example.com")

abbrev bela_session : Session
bela_session = session_of jwt bcrypt (env 9000) bela_row none

abbrev joined : Accounts
joined = record accounts { coaches = anna ∷ bela_row ∷ [] }

accept_invite-login_example :
    login jwt bcrypt (env 20000) "bela@example.com" "password" joined
    ≡ (ok (session_of jwt bcrypt (env 20000) bela_row none), joined)
unfolding accept_invite find sign_coach_invite_token verify_coach_invite_token insert_coach ◌>>=◌
    any others_write
accept_invite-login_example =
    accept_invite-login jwt bcrypt (env 9000) (env 20000) invitation accounts joined bela_session
      bcrypt-IsBcrypt refl

-- another invitation to the site of the first is accepted in between
abbrev dora_row : Coach
dora_row = invited 3 "dora@example.com" "Dora" "password" (some "https://bela.example.com")

abbrev crowded : AuthEnv
crowded = record (env 9000) { meanwhile = λ cs. cs ++ dora_row ∷ [] }

accept_invite_race_example :
    (row : Coach) × (row ≡ bela_row)
    × (IsAdded row
          (session_of jwt bcrypt crowded row none)
          (anna ∷ dora_row ∷ [])
          (accept_invite jwt bcrypt crowded invitation accounts)
        ⊎ IsTaken row
            (anna ∷ [])
            (anna ∷ dora_row ∷ [])
            (accept_invite jwt bcrypt crowded invitation accounts))
unfolding sign_coach_invite_token verify_coach_invite_token
accept_invite_race_example =
    accept_invite_race jwt bcrypt crowded invitation accounts "bela@example.com" "Bela"
      (some "https://bela.example.com") refl

-- the sessions of the first coach are revoked at 8.5 s
abbrev revoked_anna : Coach
revoked_anna = revoke 8500 anna

revoke_sessions_admits_example :
    authenticate jwt (some old) 20000 (revoked_anna ∷ [])
    ≡ err (unauthorized (plain "Session has been revoked, please log in again"))
unfolding revoke_sessions ◌>>=◌ find update_coach
revoke_sessions_admits_example =
    revoke_sessions_admits jwt bcrypt (env 8500) 1 accounts
      (record accounts { coaches = revoked_anna ∷ [] }) revoked_anna old 20000
      (record {
        sub = some 1;
        email = none;
        name = none;
        frontend_url = none;
        role = none;
        purpose = none;
        iat = some 8;
      })
      8 refl refl refl refl

abbrev password_change : ChangePasswordDto
password_change = record { current_password = anna.password_hash; new_password = "new password" }

-- the first coach with the new password
abbrev changed_anna : Coach
changed_anna = rehash "new password" anna

change_password-login_example :
    login jwt bcrypt
      (env 20000)
      anna.email
      "new password"
      (record accounts { coaches = changed_anna ∷ [] })
    ≡ (
      ok (session_of jwt bcrypt (env 20000) changed_anna none),
      record accounts { coaches = changed_anna ∷ [] },
    )
unfolding change_password ◌>>=◌ find update_coach
change_password-login_example =
    change_password-login jwt bcrypt (env 9000) (env 20000) anna anna password_change accounts
      (record accounts { coaches = changed_anna ∷ [] }) bcrypt-IsBcrypt refl refl refl

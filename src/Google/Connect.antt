-- ===== src/Google/Connect.antt =====
-- google/google-oauth.service.ts and google/google.controller.ts: how a coach connects a calendar.
use betti_coaching_calendar.Prelude.{
  ℕ, Bool, true, false, ◌==◌, any, find, String, str_eq, Option, none, some, List, [], ◌∷◌, ◌++◌,
  get_or, update_where, if◌then◌else◌,
}
use betti_coaching_calendar.Http.{
  Error, plain, bad_request, failure, prisma_error, Result, ok, err, or_throw,
}
use betti_coaching_calendar.Action.{Action, lift, throw_if, throw_when, modify, ◌>>=◌, ◌>>◌}
use betti_coaching_calendar.Schema.{Db, Coach, GoogleIntegration}
use betti_coaching_calendar.Common.Crypto.{Cipher, encrypt}
use betti_coaching_calendar.Auth.Token.{
  Token, Jwt, sign_google_connect_state, verify_google_connect_state,
}
use betti_coaching_calendar.Notifications.Formats.{has_text}

-- what comes from outside during a callback: the clock, the random bytes of the encryption, and what
-- Google answers: the refresh token, and the address of the account
pub record CallbackEnv (Byte : Type 0) : Type 0 where
  pub now : ℕ
  pub iv : List Byte
  pub tokens : Result (Option String)
  pub user_email : Result (Option String)

pub record Status : Type 0 where
  pub connected : Bool
  pub connected_email : Option String
  pub connected_at : Option ℕ

abbrev pub is_of : ℕ → GoogleIntegration → Bool
is_of coach_id i = i.coach_id == coach_id

abbrev set_integrations : (List GoogleIntegration → List GoogleIntegration) → Db → Db
set_integrations f db = record db { integrations = f db.integrations }

abbrev pub has_coach : ℕ → Db → Bool
has_coach coach_id db = any (λ c. c.id == coach_id) db.coaches

abbrev pub renew : GoogleIntegration → GoogleIntegration → GoogleIntegration
renew new i = record i {
  refresh_token_encrypted = new.refresh_token_encrypted;
  connected_email = new.connected_email;
  connected_at = new.connected_at;
}

-- the write of `upsert`, after its lookup
abbrev pub stored_in : Option GoogleIntegration → GoogleIntegration → Db → Db
stored_in none new db = record db { integrations = db.integrations ++ new ∷ [] }
stored_in (some old) new db = record db {
  integrations = update_where (is_of new.coach_id) (renew new) db.integrations;
}

abbrev pub store : GoogleIntegration → Db → Db
store new db = stored_in (find (is_of new.coach_id) db.integrations) new db

abbrev missing_id : Error
missing_id = failure "PrismaClientValidationError"

module _ {Byte : Type 0} (c : Cipher Byte) (key : String) (e : CallbackEnv Byte) where
  -- `GoogleOAuthService.handleCallback`; the row refers to the coach
  unfoldable pub handle_callback : String → Option ℕ → Action Db (Unit {0})
  unfolding any find update_where
  handle_callback code coach_id = do
    throw_if (str_eq code "") (bad_request (plain "Missing authorization code"))
    token ← lift e.tokens
    throw_if (if has_text token then false else true)
        (bad_request (plain "Google did not return a refresh token"))
    email ← lift e.user_email
    encrypted ← lift (encrypt c e.iv (get_or token "") key)
    id ← lift (or_throw coach_id missing_id)
    throw_when (λ db. if has_coach id db then false else true) (prisma_error "P2003")
    modify (
        store (record {
          coach_id = id;
          refresh_token_encrypted = encrypted;
          connected_email = get_or email "unknown";
          connected_at = e.now;
        }))

abbrev pub status_of : Option GoogleIntegration → Status
status_of none = record { connected = false; connected_email = none; connected_at = none }
status_of (some i) = record {
  connected = true;
  connected_email = some i.connected_email;
  connected_at = some i.connected_at;
}

-- `GoogleOAuthService.status`
unfoldable pub status : ℕ → Db → Status
unfolding find
status coach_id db = status_of (find (is_of coach_id) db.integrations)

-- the controller
module _ (jwt : Jwt) where
  unfoldable pub connect_token : Coach → ℕ → Token
  connect_token coach now = sign_google_connect_state jwt coach.id now

  -- the state that the browser is sent to Google with
  abbrev redirect : Token → Result (Option ℕ) → Result Token
  redirect state (err e) = err e
  redirect state (ok coach_id) = ok state

  unfoldable pub connect : Token → ℕ → Result Token
  connect state now = redirect state (verify_google_connect_state jwt state now)

  module _ {Byte : Type 0} (c : Cipher Byte) (key : String) (e : CallbackEnv Byte) where
    unfoldable pub callback : String → Token → Action Db (Unit {0})
    callback code state =
        lift (verify_google_connect_state jwt state e.now) >>= handle_callback c key e code

-- ===== src/Auth/Token.antt =====
-- auth/token.service.ts: the four kinds of signed tokens. The package jsonwebtoken is the record
-- `Jwt`, with the configured secret applied; clocks are in milliseconds, the fields of a token in
-- seconds.
use betti_coaching_calendar.Prelude.{
  ℕ, ◌+◌, ◌/◌, ◌≤◌, ◌<◌, ◌≡◌, Bool, true, false, ◌==◌, String, str_eq, Option, none, some,
  if◌then◌else◌,
}
use betti_coaching_calendar.Http.{plain, unauthorized, Result, ok, err}
use betti_coaching_calendar.Schema.{CoachRole}

-- A payload, with the fields that some kind of token has. The code casts what it reads, so each
-- field may be absent.
pub record Claims : Type 0 where
  pub sub : Option ℕ
  pub email : Option String
  pub name : Option String
  pub frontend_url : Option String
  pub role : Option CoachRole
  pub purpose : Option String
  pub iat : Option ℕ

-- The texts that are sent as tokens, told apart as far as jsonwebtoken tells them apart: a payload
-- with a signature under the secret and the second in which it expires, or another text.
pub data Token : Type 0 where
  signed : Claims → ℕ → Token
  unsigned : String → Token

-- `!token`
abbrev pub is_empty : Token → Bool
is_empty (signed c expiry) = false
is_empty (unsigned text) = str_eq text ""

pub record Jwt : Type 0 where
  -- `jwt.sign(payload, secret, { expiresIn })` at a clock reading
  pub sign : Claims → ℕ → ℕ → Token
  -- `jwt.verify(token, secret)` at a clock reading; it throws where this is `none`
  pub verify : Token → ℕ → Option Claims

-- the second in which a token counts as issued: `payload.iat || Math.floor(Date.now() / 1000)`
abbrev pub issued_at : Option ℕ → ℕ → ℕ
issued_at none now = now / 1000
issued_at (some n) now = if n == 0 then now / 1000 else n

-- What jsonwebtoken documents: a token gives back its payload with `iat` until it expires, and
-- nothing from then on; it is not empty.
pub record IsJwt (jwt : Jwt) : Type 0 where
  pub valid :
      (c : Claims) (lifetime now at : ℕ)
      → at / 1000 < issued_at c.iat now + lifetime
      → jwt.verify (jwt.sign c lifetime now) at
        ≡ some (record c { iat = some (issued_at c.iat now) })
  pub expired :
      (c : Claims) (lifetime now at : ℕ)
      → issued_at c.iat now + lifetime ≤ at / 1000
      → jwt.verify (jwt.sign c lifetime now) at ≡ none
  pub filled : (c : Claims) (lifetime now : ℕ) → is_empty (jwt.sign c lifetime now) ≡ false

-- `AccessTokenPayload` where it is signed
pub record AccessTokenPayload : Type 0 where
  pub sub : ℕ
  pub email : String
  pub role : CoachRole
  pub iat : Option ℕ

pub record CoachInvitePayload : Type 0 where
  pub email : Option String
  pub name : Option String
  pub frontend_url : Option String

pub record PasswordResetTokenPayload : Type 0 where
  pub coach_id : Option ℕ
  pub iat : ℕ

-- 30 days, 5 minutes, 7 days and 1 hour
abbrev pub token_ttl : ℕ
token_ttl = 2592000

abbrev pub google_connect_state_ttl : ℕ
google_connect_state_ttl = 300

abbrev pub coach_invite_ttl : ℕ
coach_invite_ttl = 604800

abbrev pub password_reset_ttl : ℕ
password_reset_ttl = 3600

abbrev no_claims : Claims
no_claims = record {
  sub = none;
  email = none;
  name = none;
  frontend_url = none;
  role = none;
  purpose = none;
  iat = none;
}

abbrev pub access_claims : AccessTokenPayload → Claims
access_claims p = record no_claims {
  sub = some p.sub;
  email = some p.email;
  role = some p.role;
  iat = p.iat;
}

abbrev pub google_connect_claims : ℕ → Claims
google_connect_claims coach_id = record no_claims {
  sub = some coach_id;
  purpose = some "google-connect";
}

abbrev pub coach_invite_claims : String → String → String → Claims
coach_invite_claims email name frontend_url = record no_claims {
  email = some email;
  name = some name;
  frontend_url = some frontend_url;
  purpose = some "coach-invite";
}

abbrev pub password_reset_claims : ℕ → Claims
password_reset_claims coach_id = record no_claims {
  sub = some coach_id;
  purpose = some "password-reset";
}

-- `payload.purpose === …`
abbrev pub has_purpose : String → Option String → Bool
has_purpose p none = false
has_purpose p (some q) = str_eq q p

abbrev pub is_issued : Option ℕ → Bool
is_issued none = false
is_issued (some n) = true

-- the payload of a token that the package accepts
abbrev pub read : Option Claims → String → Result Claims
read none message = err (unauthorized (plain message))
read (some c) message = ok c

abbrev pub read_google_connect : Option Claims → Result (Option ℕ)
read_google_connect none = err (unauthorized (plain "Invalid or expired connect link"))
read_google_connect (some c) =
    if has_purpose "google-connect" c.purpose
    then ok c.sub
    else err (unauthorized (plain "Invalid or expired connect link"))

abbrev pub read_coach_invite : Option Claims → Result CoachInvitePayload
read_coach_invite none = err (unauthorized (plain "Invalid or expired invite link"))
read_coach_invite (some c) =
    if has_purpose "coach-invite" c.purpose
    then ok (record { email = c.email; name = c.name; frontend_url = c.frontend_url })
    else err (unauthorized (plain "Invalid or expired invite link"))

-- a token without `iat` is refused like one of another purpose
abbrev pub read_password_reset_at : Option ℕ → Claims → Result PasswordResetTokenPayload
read_password_reset_at none c = err (unauthorized (plain "Invalid or expired reset link"))
read_password_reset_at (some n) c =
    if has_purpose "password-reset" c.purpose
    then ok (record { coach_id = c.sub; iat = n })
    else err (unauthorized (plain "Invalid or expired reset link"))

abbrev pub read_password_reset : Option Claims → Result PasswordResetTokenPayload
read_password_reset none = err (unauthorized (plain "Invalid or expired reset link"))
read_password_reset (some c) = read_password_reset_at c.iat c

-- the methods; `now` is the clock
module _ (jwt : Jwt) where
  unfoldable pub sign : AccessTokenPayload → ℕ → Token
  sign payload now = jwt.sign (access_claims payload) token_ttl now

  unfoldable pub verify : Token → ℕ → Result Claims
  verify token now = read (jwt.verify token now) "Invalid or expired token"

  unfoldable pub sign_google_connect_state : ℕ → ℕ → Token
  sign_google_connect_state coach_id now =
      jwt.sign (google_connect_claims coach_id) google_connect_state_ttl now

  unfoldable pub verify_google_connect_state : Token → ℕ → Result (Option ℕ)
  verify_google_connect_state token now = read_google_connect (jwt.verify token now)

  unfoldable pub sign_coach_invite_token : String → String → String → ℕ → Token
  sign_coach_invite_token email name frontend_url now =
      jwt.sign (coach_invite_claims email name frontend_url) coach_invite_ttl now

  unfoldable pub verify_coach_invite_token : Token → ℕ → Result CoachInvitePayload
  verify_coach_invite_token token now = read_coach_invite (jwt.verify token now)

  unfoldable pub sign_password_reset_token : ℕ → ℕ → Token
  sign_password_reset_token coach_id now =
      jwt.sign (password_reset_claims coach_id) password_reset_ttl now

  unfoldable pub verify_password_reset_token : Token → ℕ → Result PasswordResetTokenPayload
  verify_password_reset_token token now = read_password_reset (jwt.verify token now)

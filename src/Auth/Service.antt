-- ===== src/Auth/Service.antt =====
-- auth/auth.service.ts: sign-in and the two halves of a password reset. The package bcryptjs is the
-- record `Bcrypt`; the emails that were sent are kept in the state.
use betti_coaching_calendar.Prelude.{
  ℕ, ◌+◌, ◌/◌, ◌≡◌, Bool, true, ◌==◌, String, str_eq, Option, none, some, List, [], ◌∷◌, ◌++◌, find,
  update_where, or_else, if◌then◌else◌,
}
use betti_coaching_calendar.Http.{Error, plain, unauthorized, prisma_error, Result, ok, err}
use betti_coaching_calendar.Action.{Action, pure, lift, gets, find_or_throw, modify, ◌>>=◌, ◌>>◌}
use betti_coaching_calendar.Schema.{Coach, AllowedOrigin}
use betti_coaching_calendar.Auth.Token.{
  Token, Jwt, sign, sign_password_reset_token, verify_password_reset_token,
  PasswordResetTokenPayload,
}
use betti_coaching_calendar.Auth.Guard.{find_coach_by_id, is_revoked}

pub record Bcrypt : Type 0 where
  -- `bcrypt.hash(plainText, 12)`, the salt it makes first
  pub hash : String → String → String
  -- `bcrypt.compare(plainText, hash)`
  pub compare : String → String → Bool

-- What bcryptjs documents: a hash is recognised with its text.
pub record IsBcrypt (bcrypt : Bcrypt) : Type 0 where
  pub recognises : (salt text : String) → bcrypt.compare text (bcrypt.hash salt text) ≡ true

-- an email that was sent: a reset link or an invitation, to an address, for a name, on a site and
-- with a token
pub data Mail : Type 0 where
  reset_link : String → String → String → Token → Mail
  invitation : String → String → String → Token → Mail

-- the tables of coaches and of allowed origins, and the emails sent, oldest first
pub record Accounts : Type 0 where
  pub coaches : List Coach
  pub allowed_origins : List AllowedOrigin
  pub mails : List Mail

-- what comes from outside during one request
pub record AuthEnv : Type 0 where
  pub now : ℕ
  -- the salt of bcrypt and the identifier of a new coach
  pub salt : String
  pub new_id : ℕ
  -- what other requests write into the table of coaches between the reads and the write of a
  -- request that checks for duplicates first
  pub meanwhile : List Coach → List Coach
  -- the error of `emailService.sendRaw`, if it fails
  pub mail_error : Option Error

abbrev pub set_coaches : (List Coach → List Coach) → Accounts → Accounts
set_coaches f s = record s { coaches = f s.coaches }

abbrev pub by_id : ℕ → Coach → Bool
by_id id c = c.id == id

abbrev pub by_email : String → Coach → Bool
by_email email c = str_eq c.email email

abbrev pub deliver : Option Error → Mail → Action Accounts (Unit {0})
deliver (some e) mail s = (err e, s)
deliver none mail s = (ok tt, record s { mails = s.mails ++ mail ∷ [] })

-- other requests write between two steps of this one
unfoldable pub others_write : AuthEnv → Action Accounts (Unit {0})
unfolding modify
others_write env = modify (set_coaches env.meanwhile)

-- `coach.update({ where: { id }, data })`
unfoldable pub update_coach : ℕ → (Coach → Coach) → Action Accounts Coach
unfolding ◌>>=◌ find update_where
update_coach id change = do
  row ← find_or_throw (λ s. find (by_id id) s.coaches) (prisma_error "P2025")
  modify (set_coaches (update_where (by_id id) change))
  pure (change row)

-- `password_reset_email` goes to the coach's own address
abbrev pub send_reset : Option Error → Coach → String → Token → Action Accounts (Unit {0})
send_reset mail_error coach frontend_url token =
    deliver mail_error (reset_link coach.email coach.name frontend_url token)

-- the answer of a sign-in
pub record Session : Type 0 where
  pub access_token : Token
  pub coach : Coach

abbrev pub set_password : String → ℕ → Coach → Coach
set_password password_hash at c = record c {
  password_hash = password_hash;
  sessions_revoked_at = some at;
}

module _ (jwt : Jwt) (bcrypt : Bcrypt) (env : AuthEnv) where
  abbrev pub session_of : Coach → Option ℕ → Session
  session_of c iat = record {
    access_token =
        sign jwt (record { sub = c.id; email = c.email; role = c.role; iat = iat }) env.now;
    coach = c;
  }

  abbrev check_password : String → Option Coach → Result Coach
  check_password password none = err (unauthorized (plain "Invalid email or password"))
  check_password password (some c) =
      if bcrypt.compare password c.password_hash
      then ok c
      else err (unauthorized (plain "Invalid email or password"))

  unfoldable pub login : String → String → Action Accounts Session
  unfolding find
  login email password = do
    found ← gets (λ s. find (by_email email) s.coaches)
    coach ← lift (check_password password found)
    pure (session_of coach none)

  -- `if (!frontendUrl) return`: the empty text counts as missing
  abbrev pub send_link : Coach → Option String → Action Accounts (Unit {0})
  send_link coach none = pure tt
  send_link coach (some url) =
      if str_eq url ""
      then pure tt
      else send_reset env.mail_error coach url (sign_password_reset_token jwt coach.id env.now)

  abbrev pub forgot : Option String → Option Coach → Action Accounts (Unit {0})
  forgot request_origin none = pure tt
  forgot request_origin (some coach) = send_link coach (or_else coach.frontend_url request_origin)

  unfoldable pub forgot_password : String → Option String → Action Accounts (Unit {0})
  unfolding find
  forgot_password email request_origin = do
    found ← gets (λ s. find (by_email email) s.coaches)
    forgot request_origin found

  abbrev check_reset : PasswordResetTokenPayload → Option Coach → Result Coach
  check_reset payload none = err (unauthorized (plain "Invalid or expired reset link"))
  check_reset payload (some c) =
      if is_revoked c.sessions_revoked_at (some payload.iat)
      then err (unauthorized (plain "This reset link has already been used"))
      else ok c

  -- `Math.floor(sessionsRevokedAt.getTime() / 1000) + 1`
  abbrev pub pinned_iat : ℕ
  pinned_iat = env.now / 1000 + 1

  unfoldable pub reset_password : Token → String → Action Accounts Session
  reset_password token new_password = do
    payload ← lift (verify_password_reset_token jwt token env.now)
    coaches ← gets (λ s. s.coaches)
    found ← lift (find_coach_by_id payload.coach_id coaches)
    coach ← lift (check_reset payload found)
    updated ← update_coach coach.id (set_password (bcrypt.hash env.salt new_password) env.now)
    pure (session_of updated (some pinned_iat))

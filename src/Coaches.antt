-- ===== src/Coaches.antt =====
-- coaches/coaches.service.ts: invitations, profiles, sites, passwords and sessions of coaches.
pub mod Invited
pub mod Revoked
pub mod Passwords
pub mod Race
use betti_coaching_calendar.Prelude.{
  ℕ, ◌≡◌, Bool, true, false, not, ◌&&◌, ◌||◌, ◌==◌, String, str_eq, Option, none, some, List, [],
  ◌∷◌, ◌++◌, find, any, get_or, is_some, sort_by, if◌then◌else◌,
}
use betti_coaching_calendar.Http.{
  Error, plain, conflict, not_found, unauthorized, failure, prisma_error, Result, ok, err,
}
use betti_coaching_calendar.Action.{
  Action, pure, throw, lift, gets, find_or_throw, throw_if, throw_when, modify, ◌>>=◌, ◌>>◌,
}
use betti_coaching_calendar.Schema.{Coach, CoachRole, AllowedOrigin}
use betti_coaching_calendar.Auth.Token.{
  Token, Jwt, sign_coach_invite_token, verify_coach_invite_token, CoachInvitePayload,
}
use betti_coaching_calendar.Auth.Service.{
  Bcrypt, AuthEnv, Accounts, Session, Mail, by_id, by_email, set_coaches, deliver, update_coach,
  others_write, session_of,
}

pub record UpdateCoachDto : Type 0 where
  pub name : Option String
  pub preferred_locale : Option String

pub record InviteCoachDto : Type 0 where
  pub email : String
  pub name : String
  pub frontend_url : String

pub record AcceptInviteDto : Type 0 where
  pub token : Token
  pub password : String

pub record ChangePasswordDto : Type 0 where
  pub current_password : String
  pub new_password : String

abbrev pub has_url : String → Option String → Bool
has_url url none = false
has_url url (some u) = str_eq u url

abbrev pub by_site : String → Coach → Bool
by_site url c = has_url url c.frontend_url

abbrev pub is_origin : String → AllowedOrigin → Bool
is_origin url o = str_eq o.origin url

-- `le` is the order of names in the database's collation
unfoldable pub find_all : (le : String → String → Bool) → Accounts → List Coach
unfolding sort_by
find_all le s = sort_by (λ a b. le a.name b.name) s.coaches

abbrev pub profile : UpdateCoachDto → Coach → Coach
profile dto c = record c {
  name = get_or dto.name c.name;
  preferred_locale = get_or dto.preferred_locale c.preferred_locale;
}

unfoldable pub update : ℕ → UpdateCoachDto → Action Accounts Coach
update coach_id dto = update_coach coach_id (profile dto)

-- the rows that a new row or a new site would collide with
abbrev pub site_taken : Option String → Coach → Bool
site_taken none c = false
site_taken (some url) c = by_site url c

abbrev pub collides : Coach → Coach → Bool
collides row c = c.id == row.id || by_email row.email c || site_taken row.frontend_url c

-- `coach.create`: the database, not the service, throws P2002 for the primary key and the two unique
-- columns of prisma/schema.prisma
unfoldable pub insert_coach : Coach → Action Accounts Coach
unfolding any
insert_coach row = do
  throw_when (λ s. any (collides row) s.coaches) (prisma_error "P2002")
  modify (set_coaches (λ cs. cs ++ row ∷ []))
  pure row

abbrev pub set_site : String → Coach → Coach
set_site url c = record c { frontend_url = some url }

-- `coach.update` of the unique column, with the P2002 of the database
unfoldable pub update_site : ℕ → String → Action Accounts Coach
unfolding any
update_site coach_id url = do
  throw_when (λ s. any (λ c. by_site url c && not (c.id == coach_id)) s.coaches)
      (prisma_error "P2002")
  update_coach coach_id (set_site url)

abbrev pub revoke : ℕ → Coach → Coach
revoke at c = record c { sessions_revoked_at = some at }

abbrev pub rehash : String → Coach → Coach
rehash password_hash c = record c { password_hash = password_hash }

abbrev validation_error : Error
validation_error = failure "PrismaClientValidationError"

abbrev pub required {ℓ} : {A : Type ℓ} → Option A → Result A
required none = err validation_error
required (some a) = ok a

abbrev pub invited : ℕ → String → String → String → Option String → Coach
invited id email name password_hash frontend_url = record {
  id = id;
  email = email;
  password_hash = password_hash;
  name = name;
  preferred_locale = "hu";
  role = CoachRole.coach;
  sessions_revoked_at = none;
  frontend_url = frontend_url;
}

module _ (jwt : Jwt) (bcrypt : Bcrypt) (env : AuthEnv) where
  unfoldable pub invite : InviteCoachDto → Action Accounts (Unit {0})
  unfolding find
  invite dto = do
    throw_when (λ s. is_some (find (by_email dto.email) s.coaches))
        (conflict (plain "A coach with that email already exists"))
    find_or_throw (λ s. find (is_origin dto.frontend_url) s.allowed_origins)
        (not_found (plain "That site is not an allowed origin"))
    throw_when (λ s. is_some (find (by_site dto.frontend_url) s.coaches))
        (conflict (plain "This site already has a coach assigned"))
    deliver env.mail_error (
        Mail.invitation dto.email dto.name dto.frontend_url
          (sign_coach_invite_token jwt dto.email dto.name dto.frontend_url env.now))

  -- `id` is generated, the locale has its default
  unfoldable pub accept_invite : AcceptInviteDto → Action Accounts Session
  unfolding find
  accept_invite dto = do
    payload ← lift (verify_coach_invite_token jwt dto.token env.now)
    email ← lift (required payload.email)
    throw_when (λ s. is_some (find (by_email email) s.coaches))
        (conflict (plain "This invite has already been used"))
    name ← lift (required payload.name)
    others_write env
    coach ←
        insert_coach
          (invited env.new_id email name (bcrypt.hash env.salt dto.password) payload.frontend_url)
    pure (session_of jwt bcrypt env coach none)

  unfoldable pub set_frontend_url : ℕ → String → Action Accounts Coach
  unfolding find
  set_frontend_url coach_id url = do
    find_or_throw (λ s. find (is_origin url) s.allowed_origins)
        (not_found (plain "That site is not an allowed origin"))
    for_site ← gets (λ s. find (by_site url) s.coaches)
    throw_if (is_some for_site && not (is_own for_site))
        (conflict (plain "This site already has a coach assigned"))
    others_write env
    update_site coach_id url
    where
      is_own : Option Coach → Bool
      is_own none = false
      is_own (some c) = c.id == coach_id

  unfoldable pub revoke_sessions : ℕ → Action Accounts Coach
  revoke_sessions coach_id = update_coach coach_id (revoke env.now)

  unfoldable pub change_password : Coach → ChangePasswordDto → Action Accounts (Unit {0})
  change_password coach dto = do
    throw_if (not (bcrypt.compare dto.current_password coach.password_hash))
        (unauthorized (plain "Current password is incorrect"))
    update_coach coach.id (rehash (bcrypt.hash env.salt dto.new_password))
    pure tt

-- ===== src/Auth/Guard.antt =====
-- auth/jwt-auth.guard.ts and auth/roles.guard.ts: who gets past the guards.
use betti_coaching_calendar.Prelude.{
  ℕ, ◌*◌, Bool, true, false, ◌==◌, ltb, String, Option, none, some, List, [], ◌∷◌, find, any,
  if◌then◌else◌,
}
use betti_coaching_calendar.Http.{
  Error, plain, unauthorized, forbidden, failure, Result, ok, err, ◌>>=◌,
}
use betti_coaching_calendar.Schema.{Coach, CoachRole}
use betti_coaching_calendar.Auth.Token.{Token, is_empty, Jwt, Claims, verify}

-- the `Authorization` header, cut at its prefix: `Bearer ` and the rest, or another text
pub data Authorization : Type 0 where
  bearer : Token → Authorization
  other : String → Authorization

-- `extractToken`; the caller takes the empty text for a missing one
unfoldable pub extract_token : Option Authorization → Option Token
extract_token none = none
extract_token (some (other text)) = none
extract_token (some (bearer token)) = if is_empty token then none else some token

-- `coach.findUnique({ where: { id } })`; Prisma throws where the id is undefined
unfoldable pub find_coach_by_id : Option ℕ → List Coach → Result (Option Coach)
unfolding find
find_coach_by_id none coaches = err (failure "PrismaClientValidationError")
find_coach_by_id (some id) coaches = ok (find (λ c. c.id == id) coaches)

-- `sessionsRevokedAt && iat !== undefined && iat * 1000 < sessionsRevokedAt.getTime()`; the instant
-- is a Date, which is truthy
abbrev pub is_revoked : Option ℕ → Option ℕ → Bool
is_revoked (some revoked_at) (some iat) = ltb (iat * 1000) revoked_at
is_revoked _ _ = false

abbrev pub admit : Claims → Option Coach → Result Coach
admit payload none = err (unauthorized (plain "Account no longer exists"))
admit payload (some coach) =
    if is_revoked coach.sessions_revoked_at payload.iat
    then err (unauthorized (plain "Session has been revoked, please log in again"))
    else ok coach

-- `JwtAuthGuard.canActivate`: the coach that it puts into the request
module _ (jwt : Jwt) where
  unfoldable pub authenticate : Option Token → ℕ → List Coach → Result Coach
  authenticate none now coaches = err (unauthorized (plain "Missing bearer token"))
  authenticate (some token) now coaches =
      verify jwt token now >>= λ payload. find_coach_by_id payload.sub coaches >>= admit payload

  unfoldable pub can_activate : Option Authorization → ℕ → List Coach → Result Coach
  can_activate header now coaches = authenticate (extract_token header) now coaches

abbrev pub same_role : CoachRole → CoachRole → Bool
same_role CoachRole.admin CoachRole.admin = true
same_role CoachRole.coach CoachRole.coach = true
same_role _ _ = false

abbrev pub includes_role : List CoachRole → Option CoachRole → Bool
includes_role roles none = false
includes_role roles (some role) = any (same_role role) roles

abbrev insufficient_role : Error
insufficient_role = forbidden (plain "Insufficient role")

-- `RolesGuard.canActivate`, on what the decorator asks for and the coach of the request
unfoldable pub roles_can_activate : Option (List CoachRole) → Option CoachRole → Result (Unit {0})
unfolding any
roles_can_activate none role = ok tt
roles_can_activate (some []) role = ok tt
roles_can_activate (some (r ∷ roles)) role =
    if includes_role (r ∷ roles) role then ok tt else err insufficient_role

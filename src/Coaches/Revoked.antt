-- ===== src/Coaches/Revoked.antt =====
-- What `revokeSessions` of coaches/coaches.service.ts does to the tokens of the coach.
use betti_coaching_calendar.Prelude.{
  ℕ, ◌*◌, ◌≡◌, refl, sym, ap, inl, inr, ltb, some, find, find-update_where, Option-cases,
  if◌then◌else◌, arith,
}
use betti_coaching_calendar.Http.{plain, unauthorized, ok, err}
use betti_coaching_calendar.Action.{◌>>=◌}
use betti_coaching_calendar.Schema.{Coach}
use betti_coaching_calendar.Auth.Token.{Token, Jwt, Claims, verify}
use betti_coaching_calendar.Auth.Guard.{authenticate, find_coach_by_id}
use betti_coaching_calendar.Auth.Service.{Bcrypt, AuthEnv, Accounts, by_id, update_coach}
use betti_coaching_calendar.Coaches.{revoke, revoke_sessions}

module _ (jwt : Jwt) (bcrypt : Bcrypt) (env : AuthEnv) where
  find-revoke_sessions :
      (coach_id : ℕ) (s s' : Accounts) (coach : Coach)
      → revoke_sessions jwt bcrypt env coach_id s ≡ (ok coach, s')
      → (find (by_id coach_id) s'.coaches ≡ some coach) × (coach.sessions_revoked_at ≡ some env.now)
  unfolding ◌>>=◌ revoke_sessions update_coach
  find-revoke_sessions coach_id s s' coach h =
      elim (Option-cases (find (by_id coach_id) s.coaches)) [
        | inl f ↦ absurd (ground arith)
        | inr (row, f) ↦
            let e =
              find-update_where (by_id coach_id) (revoke env.now) s.coaches row (λ x. refl) f in
            let row_of : revoke env.now row ≡ coach = ground arith in
            (ground (arith, e), ap (λ (k : Coach). k.sessions_revoked_at) (sym row_of))
      ]

  -- After the sessions of a coach have been revoked, the guard refuses exactly those of the coach's
  -- accepted tokens that were issued in a second that began before the revocation; with another it
  -- lets the coach in, whose row it is that the revocation answered with.
  pub revoke_sessions_admits :
      (coach_id : ℕ) (s s' : Accounts) (coach : Coach) (token : Token) (at : ℕ) (c : Claims)
      (iat : ℕ)
      → revoke_sessions jwt bcrypt env coach_id s ≡ (ok coach, s')
      → jwt.verify token at ≡ some c
      → c.sub ≡ some coach_id
      → c.iat ≡ some iat
      → authenticate jwt (some token) at s'.coaches ≡ (
          if ltb (iat * 1000) env.now
          then err (unauthorized (plain "Session has been revoked, please log in again"))
          else ok coach)
  unfolding authenticate find_coach_by_id verify
  revoke_sessions_admits coach_id s s' coach token at c iat h accepted sub issued =
      let (e, revoked) = find-revoke_sessions coach_id s s' coach h in ground (arith, e, revoked)

-- ===== src/Coaches/Passwords.antt =====
-- What `changePassword` of coaches/coaches.service.ts does to the next sign-in.
use betti_coaching_calendar.Prelude.{
  ◌≡◌, refl, inl, inr, some, none, find, find-update_where_other, update_where, Option-cases,
  Bool-cases, arith,
}
use betti_coaching_calendar.Http.{ok}
use betti_coaching_calendar.Action.{◌>>=◌}
use betti_coaching_calendar.Schema.{Coach}
use betti_coaching_calendar.Auth.Token.{Jwt}
use betti_coaching_calendar.Auth.Service.{
  Bcrypt, IsBcrypt, AuthEnv, Accounts, by_id, by_email, update_coach, login, session_of,
}
use betti_coaching_calendar.Coaches.{ChangePasswordDto, rehash, change_password}

module _ (jwt : Jwt) (bcrypt : Bcrypt) (env : AuthEnv) where
  coaches-change_password :
      (coach : Coach) (dto : ChangePasswordDto) (s s' : Accounts)
      → change_password jwt bcrypt env coach dto s ≡ (ok tt, s')
      → s'.coaches
        ≡ update_where (by_id coach.id) (rehash (bcrypt.hash env.salt dto.new_password)) s.coaches
  unfolding ◌>>=◌ change_password update_coach
  coaches-change_password coach dto s s' h =
      elim (Bool-cases (bcrypt.compare dto.current_password coach.password_hash)) [
        | inr c ↦ absurd (ground arith)
        | inl c ↦ elim (Option-cases (find (by_id coach.id) s.coaches)) [
          | inl f ↦ absurd (ground arith)
          | inr (row, f) ↦ ground arith
        ]
      ]

  -- Under the law of bcryptjs: a coach whose row is the first with their address, and who has
  -- changed their password, signs in with the address and the new password at any later time, as
  -- long as the table of coaches is as it was left.
  pub change_password-login :
      (later : AuthEnv) (coach row : Coach) (dto : ChangePasswordDto) (s s' : Accounts)
      → IsBcrypt bcrypt
      → find (by_email coach.email) s.coaches ≡ some row
      → row.id ≡ coach.id
      → change_password jwt bcrypt env coach dto s ≡ (ok tt, s')
      → login jwt bcrypt later coach.email dto.new_password s' ≡ (
        ok (session_of jwt bcrypt later (rehash (bcrypt.hash env.salt dto.new_password) row) none),
        s',
      )
  unfolding login ◌>>=◌
  change_password-login later coach row dto s s' law found own h =
      let f = rehash (bcrypt.hash env.salt dto.new_password) in
      let stored = coaches-change_password coach dto s s' h in
      let e =
        find-update_where_other (by_email coach.email) (by_id coach.id) f s.coaches row (λ x. refl)
          found (ground arith) in
      let recognised = law.recognises env.salt dto.new_password in rw (stored, e, recognised) refl

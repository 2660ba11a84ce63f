-- ===== src/Auth/Forgotten.antt =====
-- `forgotPassword` of auth/auth.controller.ts, and where the link of the email leads.
use betti_coaching_calendar.Prelude.{
  ◌≡◌, refl, ◌⊎◌, false, String, str_eq, Option, none, some, [], ◌∷◌, ◌++◌, find, inl, inr,
}
use betti_coaching_calendar.Http.{ok}
use betti_coaching_calendar.Action.{Action, ◌>>=◌}
use betti_coaching_calendar.Schema.{Coach}
use betti_coaching_calendar.Common.Origin.{Url, resolve_request_origin}
use betti_coaching_calendar.Auth.Token.{Jwt, sign_password_reset_token}
use betti_coaching_calendar.Auth.Service.{
  Bcrypt, AuthEnv, Accounts, reset_link, by_email, forgot_password,
}

module _ (parse_url : String → Option Url) (jwt : Jwt) (bcrypt : Bcrypt) (env : AuthEnv) where
  -- the address of the body, and the headers `Origin` and `Referer`
  unfoldable pub forgot_password_request :
      String → Option String → Option String → Action Accounts (Unit {0})
  unfolding forgot_password
  forgot_password_request email origin referer =
      forgot_password jwt bcrypt env email (resolve_request_origin parse_url origin referer)

  -- A request for a reset link sends an email to the coach, with a token that resets the password.
  -- The link leads to the site of a coach who has one, whatever the headers of the request are; for a
  -- coach without one it leads to any origin that the caller writes into the header.
  pub forgot_password_leads :
      (email : String) (coach : Coach) (site : String) (origin referer : Option String)
      (s : Accounts)
      → find (by_email email) s.coaches ≡ some coach
      → (coach.frontend_url ≡ some site) ⊎ ((coach.frontend_url ≡ none) × (origin ≡ some site))
      → str_eq site "" ≡ false
      → env.mail_error ≡ none
      → forgot_password_request email origin referer s ≡ (
        ok tt,
        record s {
          mails =
              s.mails
              ++ reset_link coach.email coach.name site
                  (sign_password_reset_token jwt coach.id env.now)
                ∷ [];
        },
      )
  unfolding forgot_password_request resolve_request_origin ◌>>=◌
  forgot_password_leads email coach site origin referer s f (inl u) filled sent =
      rw (f, u, filled, sent) refl
  forgot_password_leads email coach site origin referer s f (inr (u, o)) filled sent =
      rw (o, filled, f, u, filled, sent) refl

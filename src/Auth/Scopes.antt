-- ===== src/Auth/Scopes.antt =====
-- Which tokens of auth/token.service.ts each of its verifiers takes.
use betti_coaching_calendar.Prelude.{
  ℕ, ◌+◌, ◌/◌, ◌<◌, ◌≡◌, inl, inr, Bool, true, false, ◌&&◌, ltb, String, none, some, if◌then◌else◌,
  Bool-cases, arith,
}
use betti_coaching_calendar.Http.{Result, ok, err}
use betti_coaching_calendar.Auth.Token.{
  Token, Jwt, IsJwt, Claims, issued_at, AccessTokenPayload, token_ttl, google_connect_state_ttl,
  coach_invite_ttl, password_reset_ttl, access_claims, google_connect_claims, coach_invite_claims,
  password_reset_claims, sign, verify, sign_google_connect_state, verify_google_connect_state,
  sign_coach_invite_token, verify_coach_invite_token, sign_password_reset_token,
  verify_password_reset_token,
}

-- The four kinds of tokens, with what each is signed for.
pub data Issued : Type 0 where
  access : AccessTokenPayload → Issued
  google_connect : ℕ → Issued
  coach_invite : String → String → String → Issued
  password_reset : ℕ → Issued

pub data Verifier : Type 0 where
  verify_access verify_connect verify_invite verify_reset : Verifier

abbrev pub is_for : Issued → Verifier → Bool
is_for _ verify_access = true
is_for (google_connect _) verify_connect = true
is_for (coach_invite _ _ _) verify_invite = true
is_for (password_reset _) verify_reset = true
is_for _ _ = false

-- the second in which a token ends
abbrev pub expiry : Issued → ℕ → ℕ
expiry (access p) now = issued_at p.iat now + token_ttl
expiry (google_connect _) now = now / 1000 + google_connect_state_ttl
expiry (coach_invite _ _ _) now = now / 1000 + coach_invite_ttl
expiry (password_reset _) now = now / 1000 + password_reset_ttl

abbrev succeeds {ℓ} : {A : Type ℓ} → Result A → Bool
succeeds (ok _) = true
succeeds (err _) = false

module _ (jwt : Jwt) where
  unfoldable pub issue : Issued → ℕ → Token
  issue (access p) now = sign jwt p now
  issue (google_connect coach_id) now = sign_google_connect_state jwt coach_id now
  issue (coach_invite email name url) now = sign_coach_invite_token jwt email name url now
  issue (password_reset coach_id) now = sign_password_reset_token jwt coach_id now

  unfoldable pub accepts : Verifier → Token → ℕ → Bool
  accepts verify_access token at = succeeds (verify jwt token at)
  accepts verify_connect token at = succeeds (verify_google_connect_state jwt token at)
  accepts verify_invite token at = succeeds (verify_coach_invite_token jwt token at)
  accepts verify_reset token at = succeeds (verify_password_reset_token jwt token at)

  pub verify-sign :
      IsJwt jwt
      → (c : Claims) (lifetime now at : ℕ)
      → jwt.verify (jwt.sign c lifetime now) at ≡ (
          if ltb (at / 1000) (issued_at c.iat now + lifetime)
          then some (record c { iat = some (issued_at c.iat now) })
          else none)
  verify-sign law c lifetime now at =
      elim (Bool-cases (ltb (at / 1000) (issued_at c.iat now + lifetime))) [
        | inl e ↦ rw e (law.valid c lifetime now at (ground arith))
        | inr e ↦ rw e (law.expired c lifetime now at (ground arith))
      ]

  -- Under the laws of jsonwebtoken, a verifier takes a signed token exactly until it expires, where
  -- it is a token of the verifier's own kind; and `verify`, which looks for no purpose, takes the
  -- tokens of all four kinds.
  pub accepts-issue :
      IsJwt jwt
      → (verifier : Verifier) (issued : Issued) (now at : ℕ)
      → accepts verifier (issue issued now) at
        ≡ (is_for issued verifier && ltb (at / 1000) (expiry issued now))
  unfolding accepts issue sign verify sign_google_connect_state verify_google_connect_state
      sign_coach_invite_token verify_coach_invite_token sign_password_reset_token
      verify_password_reset_token
  accepts-issue law verifier (access p) now at =
      let e = verify-sign law (access_claims p) token_ttl now at in
      elim verifier
        as (λ k.
          accepts k (issue (access p) now) at
          ≡ (is_for (access p) k && ltb (at / 1000) (expiry (access p) now))) [
            | verify_access ↦ rw e (ground arith)
            | verify_connect ↦ rw e (ground arith)
            | verify_invite ↦ rw e (ground arith)
            | verify_reset ↦ rw e (ground arith)
          ]
  accepts-issue law verifier (google_connect i) now at =
      let e = verify-sign law (google_connect_claims i) google_connect_state_ttl now at in
      elim verifier
        as (λ k.
          accepts k (issue (google_connect i) now) at
          ≡ (is_for (google_connect i) k && ltb (at / 1000) (expiry (google_connect i) now))) [
            | verify_access ↦ rw e (ground arith)
            | verify_connect ↦ rw e (ground arith)
            | verify_invite ↦ rw e (ground arith)
            | verify_reset ↦ rw e (ground arith)
          ]
  accepts-issue law verifier (coach_invite m n u) now at =
      let e = verify-sign law (coach_invite_claims m n u) coach_invite_ttl now at in
      elim verifier
        as (λ k.
          accepts k (issue (coach_invite m n u) now) at
          ≡ (is_for (coach_invite m n u) k && ltb (at / 1000) (expiry (coach_invite m n u) now))) [
            | verify_access ↦ rw e (ground arith)
            | verify_connect ↦ rw e (ground arith)
            | verify_invite ↦ rw e (ground arith)
            | verify_reset ↦ rw e (ground arith)
          ]
  accepts-issue law verifier (password_reset i) now at =
      let e = verify-sign law (password_reset_claims i) password_reset_ttl now at in
      elim verifier
        as (λ k.
          accepts k (issue (password_reset i) now) at
          ≡ (is_for (password_reset i) k && ltb (at / 1000) (expiry (password_reset i) now))) [
            | verify_access ↦ rw e (ground arith)
            | verify_connect ↦ rw e (ground arith)
            | verify_invite ↦ rw e (ground arith)
            | verify_reset ↦ rw e (ground arith)
          ]

  -- Under the laws of jsonwebtoken, each of the three scoped tokens gives back, at any time before it
  -- expires, what it was signed for; a reset token gives the second of its signing too.
  pub verify-sign_scoped :
      IsJwt jwt
      → (now connect_at invite_at reset_at coach_id : ℕ) (email name url : String)
      → connect_at / 1000 < now / 1000 + google_connect_state_ttl
      → invite_at / 1000 < now / 1000 + coach_invite_ttl
      → reset_at / 1000 < now / 1000 + password_reset_ttl
      → (verify_google_connect_state jwt (sign_google_connect_state jwt coach_id now) connect_at
          ≡ ok (some coach_id))
        × (verify_coach_invite_token jwt (sign_coach_invite_token jwt email name url now) invite_at
            ≡ ok (record { email = some email; name = some name; frontend_url = some url }))
        × (verify_password_reset_token jwt (sign_password_reset_token jwt coach_id now) reset_at
            ≡ ok (record { coach_id = some coach_id; iat = now / 1000 }))
  unfolding sign_google_connect_state verify_google_connect_state sign_coach_invite_token
      verify_coach_invite_token sign_password_reset_token verify_password_reset_token
  verify-sign_scoped law now connect_at invite_at reset_at coach_id email name url p q r =
      let connect =
        law.valid (google_connect_claims coach_id) google_connect_state_ttl now connect_at p in
      let invite =
        law.valid (coach_invite_claims email name url) coach_invite_ttl now invite_at q in
      let reset = law.valid (password_reset_claims coach_id) password_reset_ttl now reset_at r in
      (ground (arith, connect), ground (arith, invite), ground (arith, reset))

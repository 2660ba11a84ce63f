-- ===== src/Tests/Web.antt =====
-- The start of the server, its sites and its account emails at concrete inputs.
use betti_coaching_calendar.Prelude.{
  ℕ, ◌+◌, ◌≤◌, ◌≡◌, refl, find, inr, true, ◌||◌, String, str_eq, Option, none, some, List, [], ◌∷◌,
  In, if◌then◌else◌,
}
use betti_coaching_calendar.Http.{ok}
use Prim.Native.Char.{Char}
use betti_coaching_calendar.Schema.{AllowedOrigin}
use betti_coaching_calendar.Common.Origin.{Url, is_localhost_origin}
use betti_coaching_calendar.Settings.Palette.{codes}
use betti_coaching_calendar.Config.{Environment, Validators}
use betti_coaching_calendar.AllowedOrigins.{Origins, cache_ttl_ms, has, origins_of}
use betti_coaching_calendar.AllowedOrigins.Staleness.{Event, asks, elsewhere, Snapshot, run}
use betti_coaching_calendar.AllowedOrigins.Cors.{allows, allows_recent}
use betti_coaching_calendar.Auth.Token.{unsigned, sign_password_reset_token}
use betti_coaching_calendar.Auth.Letters.{email_of, tags_of, email_of-with_name}
use betti_coaching_calendar.Auth.Service.{Bcrypt, AuthEnv, Accounts, reset_link}
use betti_coaching_calendar.Auth.Forgotten.{forgot_password_request, forgot_password_leads}
use betti_coaching_calendar.Tests.Data.{anna}
use betti_coaching_calendar.Tests.Tokens.{jwt, chars}

abbrev key : String
key = "0123456789abcdef0123456789abcdef"

abbrev validators : Validators Char
validators = record {
  is_email = λ text. true;
  is_url = λ text. true;
  to_number = λ text. if str_eq text "3000" then some 3000 else none;
  from_base64 = chars;
}

abbrev environment : Environment
environment = record {
  database_url = some "postgresql://localhost";
  database_pooler_url = none;
  database_direct_url = none;
  port = some "3000";
  business_timezone = some "Europe/Budapest";
  jwt_secret = some key;
  gmail_user = some "shared@gmail.com";
  gmail_app_password = some key;
  email_from = some "shared@gmail.com";
  resend_api_key = none;
  google_client_id = some "id";
  google_client_secret = some "secret";
  google_oauth_redirect_uri = some "http://localhost/callback";
  encryption_key = some key;
  node_env = none;
}

abbrev parse_url : String → Option Url
parse_url text =
    if str_eq text "http://localhost:5173"
    then some (record { hostname = "localhost"; origin = text })
    else none

abbrev table : List AllowedOrigin
table = record { id = 1; origin = "https://anna.example.com"; label = none } ∷ []

-- another instance empties the table after this one has read it
abbrev history : List (ℕ × Event)
history = (1000, asks "https://anna.example.com") ∷ (2000, elsewhere []) ∷ []

allows_recent_example :
    let start : Origins = record { table = table; cache = none; cached_at = 0 } in
    let (s, seen) = run history start [] in
    ((allows parse_url 3000 none s).0 ≡ ok true)
    × ((snapshot : Snapshot) × In snapshot ((3000, origins_of s.table) ∷ seen)
        × (3000 ≤ snapshot.0 + cache_ttl_ms)
        × ((allows parse_url 3000 (some "https://anna.example.com") s).0
            ≡ ok (
                is_localhost_origin parse_url "https://anna.example.com"
                || has "https://anna.example.com" snapshot.1)))
allows_recent_example = allows_recent parse_url history table 3000 "https://anna.example.com" refl

abbrev bcrypt : Bcrypt
bcrypt = record { hash = λ salt text. text; compare = λ text hash. str_eq text hash }

abbrev env : AuthEnv
env = record { now = 5000; salt = "salt"; new_id = 2; meanwhile = λ cs. cs; mail_error = none }

-- a coach without a site, and a request that claims to come from another
abbrev seeded : Accounts
seeded = record {
  coaches = record anna { frontend_url = none } ∷ [];
  allowed_origins = [];
  mails = [];
}

forgot_password_leads_example :
    forgot_password_request parse_url jwt bcrypt env anna.email
      (some "https://evil.example.com")
      none
      seeded
    ≡ (
      ok tt,
      record seeded {
        mails =
            reset_link anna.email anna.name "https://evil.example.com"
              (sign_password_reset_token jwt 1 5000)
            ∷ [];
      },
    )
unfolding find
forgot_password_leads_example =
    forgot_password_leads parse_url jwt bcrypt env anna.email (record anna { frontend_url = none })
      "https://evil.example.com" (some "https://evil.example.com") none seeded refl
      (inr (refl, refl)) refl refl

email_of-with_name_example :
    tags_of
      (email_of
        (λ _. codes "abc")
        (reset_link "a@b.hu" "<a href=\"x\">" "https://a.hu" (unsigned "t"))).html
    ≡ tags_of
        (email_of
          (λ _. codes "abc")
          (reset_link "a@b.hu" "Anna" "https://a.hu" (unsigned "t"))).html
email_of-with_name_example =
    email_of-with_name (λ _. codes "abc") "<a href=\"x\">"
      (reset_link "a@b.hu" "Anna" "https://a.hu" (unsigned "t"))

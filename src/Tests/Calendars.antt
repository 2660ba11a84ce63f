-- ===== src/Tests/Calendars.antt =====
-- Connecting a calendar at concrete inputs.
use Prim.Native.Char.{Char}
use betti_coaching_calendar.Prelude.{◌≡◌, ◌⊎◌, refl, true, String, some, any, arith}
use betti_coaching_calendar.Http.{ok}
use betti_coaching_calendar.Schema.{Db, GoogleIntegration}
use betti_coaching_calendar.World.{Env}
use betti_coaching_calendar.Auth.Token.{unsigned, verify_google_connect_state}
use betti_coaching_calendar.Common.Crypto.{decrypt}
use betti_coaching_calendar.Google.Connect.{CallbackEnv, has_coach, store, connect_token, callback}
use betti_coaching_calendar.Google.Connected.{IsConnected, callback_safe, callback_connects}
use betti_coaching_calendar.Tests.Data.{anna, db, env, world}
use betti_coaching_calendar.Tests.Tokens.{jwt, jwt-IsJwt, chars, cipher, cipher-IsCipher}

abbrev key : String
key = "0123456789abcdef0123456789abcdef"

abbrev e : CallbackEnv Char
e = record {
  now = 100000;
  iv = chars "abcdefghijkl";
  tokens = ok (some "refresh");
  user_email = ok (some "anna@gmail.com");
}

-- a request that reads what was encrypted
abbrev reading : Env
reading = record (env 1) { decrypt = λ text. decrypt cipher text key }

callback_safe_example :
    ((callback jwt cipher key e "code" (unsigned "forged") db).1 ≡ db)
    ⊎ ((new : GoogleIntegration) × (verify_google_connect_state jwt (unsigned "forged") e.now
          ≡ ok (some new.coach_id))
        × (has_coach new.coach_id db ≡ true)
        × (callback jwt cipher key e "code" (unsigned "forged") db ≡ (ok tt, store new db)))
callback_safe_example = callback_safe jwt cipher key e "code" (unsigned "forged") db

callback_connects_example :
    (db' : Db) × (callback jwt cipher key e "code" (connect_token jwt anna 5000) world.db
      ≡ (ok tt, db'))
    × IsConnected jwt cipher key e anna "refresh" (some "anna@gmail.com") reading world db'
unfolding any
callback_connects_example =
    callback_connects jwt cipher key e anna 5000 "code" "refresh" (some "anna@gmail.com") reading
      world jwt-IsJwt cipher-IsCipher (λ text. refl) refl refl (omega arith) refl refl refl refl
      refl

-- ===== src/Config/Start.antt =====
-- What a start with a validated environment can rely on.
use betti_coaching_calendar.Prelude.{
  ℕ, ◌≤◌, ◌≡◌, ◌≢◌, ◌↔◌, true, false, ◌||◌, String, str_eq, Option, some, List, length, get_or,
}
use betti_coaching_calendar.Http.{ok}
use betti_coaching_calendar.Settings.Palette.{codes}
use betti_coaching_calendar.Common.Crypto.{Cipher, encrypt, decrypt, key_length}
use betti_coaching_calendar.Notifications.Formats.{has_text}
use betti_coaching_calendar.Config.{
  Environment, Validators, is_valid, connection_string, migration_url, configuration,
}

-- the text is there and not empty
abbrev pub IsFilled : Option String → Type 0
IsFilled o = (text : String) × (o ≡ some text) × (str_eq text "" ≡ false)

module _ {Byte : Type 0} (v : Validators Byte) where
  -- what a validation went through that succeeded
  record IsValidated (env : Environment) : Type 0 where
    decorated : is_valid v env ≡ true
    pooled : (has_text env.database_pooler_url || has_text env.database_url) ≡ true
    direct : (has_text env.database_direct_url || has_text env.database_url) ≡ true
    key : length (v.from_base64 (get_or env.encryption_key "")) ≡ key_length

  -- What a validated environment gives the parts that start with it: the connections, the secret of
  -- the tokens, and the key of the cipher, here for one text and the random bytes of one call.
  pub record IsStarted (env : Environment) (parse_int : String → Option ℕ) (c : Cipher Byte)
      (iv : List Byte) (text : String) : Type 0 where
    pub connects : (env.database_pooler_url ≢ some "") ↔ IsFilled (connection_string env)
    pub migrates : (env.database_direct_url ≢ some "") ↔ IsFilled (migration_url env)
    pub secret : 32 ≤ length (codes (configuration parse_int env).jwt_secret)
    pub stored : String
    pub encrypts : encrypt c iv text (configuration parse_int env).encryption_key ≡ ok stored
    pub decrypts : decrypt c stored (configuration parse_int env).encryption_key ≡ ok text

-- ===== src/Tests/Tokens.antt =====
-- A signer of tokens and a cipher that have the documented laws.
use Prim.Native.Char.{Char}
use betti_coaching_calendar.Prelude.{
  ℕ, ◌+◌, ◌/◌, ◌≡◌, refl, ap, ltb, String, Option, none, some, List, [], ◌∷◌, if◌then◌else◌, arith,
}
use betti_coaching_calendar.Auth.Token.{Token, signed, unsigned, Jwt, IsJwt, Claims, issued_at}
use betti_coaching_calendar.Common.Crypto.{Cipher, IsCipher}

abbrev pub verify_signed : Token → ℕ → Option Claims
verify_signed (signed c end) at = if ltb (at / 1000) end then some c else none
verify_signed (unsigned text) at = none

abbrev pub jwt : Jwt
jwt = record {
  sign = λ c lifetime now.
      signed (record c { iat = some (issued_at c.iat now) }) (issued_at c.iat now + lifetime);
  verify = verify_signed;
}

pub jwt-IsJwt : IsJwt jwt
jwt-IsJwt = record {
  valid = λ c lifetime now at h. ground arith;
  expired = λ c lifetime now at h. ground arith;
  filled = λ c lifetime now. refl;
}

abbrev pub chars : String → List Char
chars String.[] = []
chars (String.◌∷◌ c s) = c ∷ chars s

abbrev pub text_of : List Char → String
text_of [] = String.[]
text_of (c ∷ cs) = String.◌∷◌ c (text_of cs)

chars-text_of : (cs : List Char) → chars (text_of cs) ≡ cs
chars-text_of [] = refl
chars-text_of (c ∷ cs) = ap (λ ds. c ∷ ds) (chars-text_of cs)

text_of-chars : (s : String) → text_of (chars s) ≡ s
text_of-chars String.[] = refl
text_of-chars (String.◌∷◌ c s) = ap (λ t. String.◌∷◌ c t) (text_of-chars s)

-- characters as bytes, and a seal that hides nothing
abbrev pub cipher : Cipher Char
cipher = record {
  from_base64 = chars;
  to_base64 = text_of;
  to_utf8 = chars;
  from_utf8 = text_of;
  seal = λ key iv plain. some (plain, chars "0123456789abcdef");
  unseal = λ key iv tag encrypted. some encrypted;
}

pub cipher-IsCipher : IsCipher cipher
cipher-IsCipher = record {
  base64 = chars-text_of;
  utf8 = text_of-chars;
  opens = λ key iv plain h k. (plain, chars "0123456789abcdef", refl, refl, refl);
}

-- ===== src/Common/Crypto.antt =====
-- common/crypto.util.ts: encryption at rest. node:crypto and Buffer are parameters; a buffer is the
-- list of its bytes.
use betti_coaching_calendar.Prelude.{
  ℕ, zero, suc, ◌+◌, ◌≡◌, refl, sym, ap, ◌∙◌, String, Option, none, some, List, [], ◌∷◌, ◌++◌,
  append_assoc, length, arith,
}
use betti_coaching_calendar.Http.{failure, Result, ok, err}

module _ {ℓ} {A : Type ℓ} where
  -- `buffer.subarray(0, n)` and `buffer.subarray(n)`
  pub take : ℕ → List A → List A
  take zero xs = []
  take (suc n) [] = []
  take (suc n) (x ∷ xs) = x ∷ take n xs

  pub drop : ℕ → List A → List A
  drop zero xs = xs
  drop (suc n) [] = []
  drop (suc n) (x ∷ xs) = drop n xs

  take-append : (n : ℕ) (xs ys : List A) → length xs ≡ n → take n (xs ++ ys) ≡ xs
  unfolding take
  take-append zero [] ys h = refl
  take-append zero (x ∷ xs) ys h = absurd (omega arith)
  take-append (suc n) [] ys h = absurd (omega arith)
  take-append (suc n) (x ∷ xs) ys h = ap (λ zs. x ∷ zs) (take-append n xs ys (omega arith))

  drop-append : (n : ℕ) (xs ys : List A) → length xs ≡ n → drop n (xs ++ ys) ≡ ys
  unfolding drop
  drop-append zero [] ys h = refl
  drop-append zero (x ∷ xs) ys h = absurd (omega arith)
  drop-append (suc n) [] ys h = absurd (omega arith)
  drop-append (suc n) (x ∷ xs) ys h = drop-append n xs ys (omega arith)

length-append {ℓ} : {A : Type ℓ} (xs ys : List A) → length (xs ++ ys) ≡ length xs + length ys
length-append [] ys = omega arith
length-append (x ∷ xs) ys = omega (arith, length-append xs ys)

-- aes-256-gcm and the encodings
pub record Cipher (Byte : Type 0) : Type 0 where
  pub from_base64 : String → List Byte
  pub to_base64 : List Byte → String
  pub to_utf8 : String → List Byte
  pub from_utf8 : List Byte → String
  -- key, nonce and plain text to the encrypted text and its tag; `createCipheriv` may throw
  pub seal : List Byte → List Byte → List Byte → Option (List Byte × List Byte)
  -- key, nonce, tag and encrypted text; `none` where one of the calls throws
  pub unseal : List Byte → List Byte → List Byte → List Byte → Option (List Byte)

abbrev pub key_length : ℕ
key_length = 32

abbrev pub iv_length : ℕ
iv_length = 12

abbrev pub tag_length : ℕ
tag_length = 16

-- What is documented of them: the encodings can be read back, and under a key of 32 bytes a sealed
-- text has a tag of 16 bytes and opens again with the same nonce.
pub record IsCipher {Byte : Type 0} (c : Cipher Byte) : Type 0 where
  pub base64 : (bytes : List Byte) → c.from_base64 (c.to_base64 bytes) ≡ bytes
  pub utf8 : (text : String) → c.from_utf8 (c.to_utf8 text) ≡ text
  pub opens :
      (key iv plain : List Byte)
      → length key ≡ key_length
      → length iv ≡ iv_length
      → (encrypted : List Byte) × (tag : List Byte) × (c.seal key iv plain ≡ some (encrypted, tag))
        × (length tag ≡ tag_length)
        × (c.unseal key iv tag encrypted ≡ some plain)

module _ {Byte : Type 0} (c : Cipher Byte) where
  abbrev payload : List Byte → List Byte × List Byte → String
  payload iv (encrypted, tag) = c.to_base64 (iv ++ (tag ++ encrypted))

  abbrev sealed : List Byte → Option (List Byte × List Byte) → Result String
  sealed iv none = err (failure "ERR_CRYPTO_INVALID_KEYLEN")
  sealed iv (some made) = ok (payload iv made)

  -- with the random bytes that the call draws
  unfoldable pub encrypt : List Byte → String → String → Result String
  encrypt iv plain_text base64_key =
      sealed iv (c.seal (c.from_base64 base64_key) iv (c.to_utf8 plain_text))

  abbrev opened : Option (List Byte) → Result String
  opened none = err (failure "Unsupported state or unable to authenticate data")
  opened (some plain) = ok (c.from_utf8 plain)

  unfoldable pub decrypt : String → String → Result String
  unfolding take drop
  decrypt text base64_key =
      let raw = c.from_base64 text in
      opened (
        c.unseal (c.from_base64 base64_key) (take iv_length raw)
          (take tag_length (drop iv_length raw)) (drop (iv_length + tag_length) raw))

  slices :
      (key iv encrypted tag : List Byte)
      → length iv ≡ iv_length
      → length tag ≡ tag_length
      → c.unseal key
          (take iv_length (iv ++ (tag ++ encrypted)))
          (take tag_length (drop iv_length (iv ++ (tag ++ encrypted))))
          (drop (iv_length + tag_length) (iv ++ (tag ++ encrypted)))
        ≡ c.unseal key iv tag encrypted
  slices key iv encrypted tag h k =
      let whole : length (iv ++ tag) ≡ iv_length + tag_length =
        omega (arith, length-append iv tag) in
      let rest =
        ap (drop (iv_length + tag_length)) (sym (append_assoc iv tag encrypted))
        ∙ drop-append (iv_length + tag_length) (iv ++ tag) encrypted whole in
      rw
        (
          take-append iv_length iv (tag ++ encrypted) h,
          drop-append iv_length iv (tag ++ encrypted) h,
          take-append tag_length tag encrypted k,
          rest,
        )
        refl

  -- Under the documented behaviour of node:crypto: with a key that decodes to 32 bytes, a text can be
  -- encrypted with any 12 random bytes, and decrypting the result under the same key gives the text.
  pub decrypt-encrypt :
      (iv : List Byte) (text base64_key : String)
      → IsCipher c
      → length (c.from_base64 base64_key) ≡ key_length
      → length iv ≡ iv_length
      → (stored : String) × (encrypt iv text base64_key ≡ ok stored)
        × (decrypt stored base64_key ≡ ok text)
  unfolding encrypt decrypt
  decrypt-encrypt iv text base64_key law h k =
      let (encrypted, tag, s, l, o) =
        law.opens (c.from_base64 base64_key) iv (c.to_utf8 text) h k in
      (
        payload iv (encrypted, tag),
        rw s refl,
        rw
            (
              law.base64 (iv ++ (tag ++ encrypted)),
              slices (c.from_base64 base64_key) iv encrypted tag k l,
              o,
              law.utf8 text,
            )
            refl,
      )

-- ===== src/Common/Strip.antt =====
-- common/strip-password-hash.interceptor.ts: what is taken out of every response body.
use betti_coaching_calendar.Prelude.{
  ℕ, ◌≡◌, refl, ap, Bool, true, not, ◌&&◌, String, str_eq, and-eq-true, Bool-cases, inl, inr,
  if◌then◌else◌,
}

-- A body as JavaScript sees it: an object is the list of its entries.
mutual
  pub data Value : Type 0 where
    -- a text, a number, a Boolean, null or undefined
    scalar : String → Value
    date : ℕ → Value
    array : Values → Value
    object : Fields → Value

  pub data Values : Type 0 where
    no_values : Values
    value : Value → Values → Values

  pub data Fields : Type 0 where
    no_fields : Fields
    field : String → Value → Fields → Fields

-- `key !== 'passwordHash'`
abbrev pub is_shown : String → Bool
is_shown key = not (str_eq key "passwordHash")

unfoldable mutual
  pub strip : Value → Value
  strip (scalar text) = scalar text
  strip (date at) = date at
  strip (array vs) = array (strip_values vs)
  strip (object fs) = object (strip_fields fs)

  pub strip_values : Values → Values
  strip_values no_values = no_values
  strip_values (value v vs) = value (strip v) (strip_values vs)

  pub strip_fields : Fields → Fields
  strip_fields no_fields = no_fields
  strip_fields (field key v fs) =
      let rest = strip_fields fs in
      let stripped = strip v in if is_shown key then field key stripped rest else rest

-- no object at any depth has the field
unfoldable mutual
  pub is_clean : Value → Bool
  is_clean (scalar text) = true
  is_clean (date at) = true
  is_clean (array vs) = are_clean vs
  is_clean (object fs) = have_clean fs

  pub are_clean : Values → Bool
  are_clean no_values = true
  are_clean (value v vs) = is_clean v && are_clean vs

  pub have_clean : Fields → Bool
  have_clean no_fields = true
  have_clean (field key v fs) = is_shown key && (is_clean v && have_clean fs)

mutual
  unfolding strip is_clean

  is_clean-strip : (v : Value) → is_clean (strip v) ≡ true
  is_clean-strip (scalar text) = refl
  is_clean-strip (date at) = refl
  is_clean-strip (array vs) = are_clean-strip_values vs
  is_clean-strip (object fs) = have_clean-strip_fields fs

  are_clean-strip_values : (vs : Values) → are_clean (strip_values vs) ≡ true
  are_clean-strip_values no_values = refl
  are_clean-strip_values (value v vs) = rw (is_clean-strip v, are_clean-strip_values vs) refl

  have_clean-strip_fields : (fs : Fields) → have_clean (strip_fields fs) ≡ true
  have_clean-strip_fields no_fields = refl
  have_clean-strip_fields (field key v fs) = elim (Bool-cases (is_shown key)) [
    | inl e ↦ rw (e, e, is_clean-strip v, have_clean-strip_fields fs) refl
    | inr e ↦ rw e (have_clean-strip_fields fs)
  ]

mutual
  unfolding strip is_clean

  strip_same : (v : Value) → is_clean v ≡ true → strip v ≡ v
  strip_same (scalar text) h = refl
  strip_same (date at) h = refl
  strip_same (array vs) h = ap array (strip_values_same vs h)
  strip_same (object fs) h = ap object (strip_fields_same fs h)

  strip_values_same : (vs : Values) → are_clean vs ≡ true → strip_values vs ≡ vs
  strip_values_same no_values h = refl
  strip_values_same (value v vs) h =
      let (p, q) = and-eq-true (is_clean v) (are_clean vs) h in
      rw (strip_same v p, strip_values_same vs q) refl

  strip_fields_same : (fs : Fields) → have_clean fs ≡ true → strip_fields fs ≡ fs
  strip_fields_same no_fields h = refl
  strip_fields_same (field key v fs) h =
      let (p, q) = and-eq-true (is_shown key) (is_clean v && have_clean fs) h in
      let (r, s) = and-eq-true (is_clean v) (have_clean fs) q in
      rw (p, strip_same v r, strip_fields_same fs s) refl

-- No object in a response body, at any depth, has a field `passwordHash` after the interceptor.
pub no_password_hash : (v : Value) → is_clean (strip v) ≡ true
no_password_hash v = is_clean-strip v

-- The interceptor leaves a body in which no object, at any depth, has the field `passwordHash` as it is.
pub strip_clean : (v : Value) → is_clean v ≡ true → strip v ≡ v
strip_clean v h = strip_same v h

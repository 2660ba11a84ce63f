-- ===== src/Settings/Palette.antt =====
-- settings/email-brand-palette.util.ts, with the type of a palette and the default one of
-- notifications/templates/BookingEmail.tsx.
use Prim.Native.Char.{code}
use betti_coaching_calendar.Prelude.{
  ℕ, Bool, true, false, ◌&&◌, ◌||◌, ◌==◌, ◌≡◌, refl, leb, String, Option, none, some, List, [], ◌∷◌,
}
use betti_coaching_calendar.Common.Json.{Json, member, no_members, property, is_object}

-- the code points of a text
abbrev pub codes : String → List ℕ
codes String.[] = []
codes (String.◌∷◌ c s) = code c ∷ codes s

-- `[0-9a-fA-F]`
abbrev pub is_hex_digit : ℕ → Bool
is_hex_digit c =
    (leb b'0' c && leb c b'9') || (leb b'a' c && leb c b'f') || (leb b'A' c && leb c b'F')

-- `/^#[0-9a-fA-F]{6}$/`
unfoldable pub is_hex_color : List ℕ → Bool
is_hex_color (h ∷ a ∷ b ∷ c ∷ d ∷ e ∷ f ∷ []) =
    h == b'#'
    && is_hex_digit a
    && is_hex_digit b
    && is_hex_digit c
    && is_hex_digit d
    && is_hex_digit e
    && is_hex_digit f
is_hex_color _ = false

abbrev pub palette_keys : List String
palette_keys =
    "bg" ∷ "bgPanel" ∷ "bgCard" ∷ "ink" ∷ "inkSoft" ∷ "accent" ∷ "accentSoft" ∷ "line" ∷ "brown"
    ∷ []

abbrev pub is_color : Option Json → Bool
is_color (some (Json.text color)) = is_hex_color (codes color)
is_color _ = false

-- `PALETTE_KEYS.every(…)`
unfoldable pub has_colors : List String → Json → Bool
unfolding property is_hex_color
has_colors [] value = true
has_colors (key ∷ keys) value = is_color (property key value) && has_colors keys value

abbrev pub is_valid_palette : Option Json → Bool
is_valid_palette none = false
is_valid_palette (some value) = is_object value && has_colors palette_keys value

unfoldable pub is_valid_email_brand_palette : Json → Bool
unfolding has_colors property
is_valid_email_brand_palette value =
    is_object value
    && is_valid_palette (property "light" value)
    && is_valid_palette (property "dark" value)

abbrev light : Json
light = Json.object (
    member "bg" (Json.text "#fbf0f0") (
      member "bgPanel" (Json.text "#f0dada") (
        member "bgCard" (Json.text "#fef7f7") (
          member "ink" (Json.text "#2a1717") (
            member "inkSoft" (Json.text "#7c5959") (
              member "accent" (Json.text "#9e5a69") (
                member "accentSoft" (Json.text "#c99aa0") (
                  member "line" (Json.text "#e9cdcd")
                    (member "brown" (Json.text "#8b6b45") no_members)))))))))

abbrev dark : Json
dark = Json.object (
    member "bg" (Json.text "#241717") (
      member "bgPanel" (Json.text "#2e1c1c") (
        member "bgCard" (Json.text "#331f1f") (
          member "ink" (Json.text "#f5e1e1") (
            member "inkSoft" (Json.text "#c99898") (
              member "accent" (Json.text "#d98ca0") (
                member "accentSoft" (Json.text "#a15c6b") (
                  member "line" (Json.text "#4a2c2c")
                    (member "brown" (Json.text "#c9a171") no_members)))))))))

-- `DEFAULT_EMAIL_PALETTE`
abbrev pub default_email_palette : Json
default_email_palette = Json.object (member "light" light (member "dark" dark no_members))

pub default_email_palette-valid : is_valid_email_brand_palette default_email_palette ≡ true
unfolding is_valid_email_brand_palette
default_email_palette-valid = refl

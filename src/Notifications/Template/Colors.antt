-- ===== src/Notifications/Template/Colors.antt =====
-- A palette that the settings accept gives the template its colors.
use betti_coaching_calendar.Prelude.{
  ◌≡◌, refl, true, and-eq-true, String, Option, some, none, List, ◌∷◌,
}
use betti_coaching_calendar.Common.Json.{Json, property, is_object}
use betti_coaching_calendar.Settings.Palette.{
  has_colors, palette_keys, is_color, is_valid_palette, is_valid_email_brand_palette,
}
use betti_coaching_calendar.Notifications.Template.Styles.{EmailPalette, EmailBrandPalette}
use betti_coaching_calendar.Notifications.Template.BookingEmail.{color, palette_of, read_palette}
use betti_coaching_calendar.Notifications.Template.Css.{build_font_and_dark_mode_css}
use betti_coaching_calendar.Notifications.Template.Sheet.{
  IsColor, IsColored, stays_inside, css-inside,
}

-- a key of an accepted palette is read
color-IsColor :
    (key : String) (value : Json)
    → is_color (property key value) ≡ true
    → (c : String) × (color key value ≡ some c) × IsColor c
color-IsColor key value h = go (property key value) refl h
  where
    go :
        (o : Option Json)
        → property key value ≡ o
        → is_color o ≡ true
        → (c : String) × (color key value ≡ some c) × IsColor c
    go (some (Json.text c)) e k = (c, rw e refl, k)
    go none e k = cc
    go (some Json.null) e k = cc
    go (some (Json.scalar s)) e k = cc
    go (some (Json.array es)) e k = cc
    go (some (Json.object ms)) e k = cc

has-cons :
    (key : String) (keys : List String) (value : Json)
    → has_colors (key ∷ keys) value ≡ true
    → ((c : String) × (color key value ≡ some c) × IsColor c) × (has_colors keys value ≡ true)
unfolding has_colors
has-cons key keys value h = let (a, b) = and-eq-true _ _ h in (color-IsColor key value a, b)

palette_of-IsColored :
    (value : Json)
    → has_colors palette_keys value ≡ true
    → (p : EmailPalette) × (palette_of value ≡ some p) × IsColored p
unfolding palette_of
palette_of-IsColored value h0 =
    let ((bg, e1, k1), h1) = has-cons _ _ value h0 in
    let ((bg_panel, e2, k2), h2) = has-cons _ _ value h1 in
    let ((bg_card, e3, k3), h3) = has-cons _ _ value h2 in
    let ((ink, e4, k4), h4) = has-cons _ _ value h3 in
    let ((ink_soft, e5, k5), h5) = has-cons _ _ value h4 in
    let ((accent, e6, k6), h6) = has-cons _ _ value h5 in
    let ((accent_soft, e7, k7), h7) = has-cons _ _ value h6 in
    let ((line, e8, k8), h8) = has-cons _ _ value h7 in
    let ((brown, e9, k9), h9) = has-cons _ _ value h8 in
    (
      record {
        bg = bg;
        bg_panel = bg_panel;
        bg_card = bg_card;
        ink = ink;
        ink_soft = ink_soft;
        accent = accent;
        accent_soft = accent_soft;
        line = line;
        brown = brown;
      },
      rw (e1, e2, e3, e4, e5, e6, e7, e8, e9) refl,
      record {
        bg = k1;
        bg_panel = k2;
        bg_card = k3;
        ink = k4;
        ink_soft = k5;
        accent = k6;
        accent_soft = k7;
        line = k8;
        brown = k9;
      },
    )

-- a side of an accepted palette
side-IsColored :
    (key : String) (value : Json)
    → is_valid_palette (property key value) ≡ true
    → (v : Json) × (property key value ≡ some v)
      × ((p : EmailPalette) × (palette_of v ≡ some p) × IsColored p)
side-IsColored key value h = go (property key value) refl h
  where
    go :
        (o : Option Json)
        → property key value ≡ o
        → is_valid_palette o ≡ true
        → (v : Json) × (property key value ≡ some v)
          × ((p : EmailPalette) × (palette_of v ≡ some p) × IsColored p)
    go none e k = cc
    go (some v) e k = (v, e, palette_of-IsColored v (and-eq-true _ _ k).1)

-- A palette that the validation of the settings accepts has every color that the email about a
-- booking takes from it, each of them `#` with six hexadecimal digits, and the style sheet that the
-- email builds of the dark ones has no `<`, so that it cannot end its element.
pub read_palette-IsColored :
    (value : Json)
    → is_valid_email_brand_palette value ≡ true
    → (p : EmailBrandPalette) × (read_palette value ≡ some p)
      × IsColored p.light
      × IsColored p.dark
      × (stays_inside (build_font_and_dark_mode_css p.dark) ≡ true)
unfolding is_valid_email_brand_palette read_palette
read_palette-IsColored value h =
    let (light_valid, second) = and-eq-true _ (is_valid_palette (property "dark" value)) h in
    let (shape, first) = and-eq-true (is_object value) _ light_valid in
    let (l, e, (light, f, light_fine)) = side-IsColored "light" value first in
    let (d, i, (dark, j, dark_fine)) = side-IsColored "dark" value second in
    (
      record { light = light; dark = dark },
      rw (e, i, f, j) refl,
      light_fine,
      dark_fine,
      css-inside dark dark_fine,
    )

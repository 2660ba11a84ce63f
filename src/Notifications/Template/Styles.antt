-- ===== src/Notifications/Template/Styles.antt =====
-- buildStyles of notifications/templates/BookingEmail.tsx: the inline styles in the light colors.
use betti_coaching_calendar.Prelude.{String, str_append, [], ◌∷◌}
use betti_coaching_calendar.Notifications.Template.Markup.{Style}

pub record EmailPalette : Type 0 where
  pub bg : String
  pub bg_panel : String
  pub bg_card : String
  pub ink : String
  pub ink_soft : String
  pub accent : String
  pub accent_soft : String
  pub line : String
  pub brown : String

pub record EmailBrandPalette : Type 0 where
  pub light : EmailPalette
  pub dark : EmailPalette

abbrev serif : String
serif = "\"Fraunces\", Georgia, \"Times New Roman\", serif"

abbrev sans : String
sans = "\"Work Sans\", Helvetica, Arial, sans-serif"

pub record Styles : Type 0 where
  pub main : Style
  pub container : Style
  pub letterhead : Style
  pub logo : Style
  pub brand_name : Style
  pub brand_tagline : Style
  pub content : Style
  pub h1 : Style
  pub text : Style
  pub card : Style
  pub card_heading : Style
  pub note_card : Style
  pub detail_row : Style
  pub button_section : Style
  pub button_primary : Style
  pub button_secondary : Style
  pub calendar_note : Style
  pub manage_links_row : Style
  pub manage_link : Style
  pub manage_links_sep : Style
  pub hr : Style
  pub footer_text : Style

unfoldable pub build_styles : EmailPalette → Styles
build_styles light = record {
  main = ("backgroundColor", light.bg) ∷ ("fontFamily", sans) ∷ ("padding", "24px 0") ∷ [];
  container =
      ("backgroundColor", light.bg)
      ∷ ("margin", "0 auto")
      ∷ ("maxWidth", "480px")
      ∷ ("borderRadius", "16px")
      ∷ ("overflow", "hidden")
      ∷ ("border", str_append "1px solid " light.line)
      ∷ [];
  letterhead =
      ("backgroundColor", light.bg_panel)
      ∷ ("padding", "28px 32px 22px")
      ∷ ("textAlign", "center")
      ∷ ("borderBottom", str_append "1px solid " light.line)
      ∷ [];
  logo = ("display", "block") ∷ ("margin", "0 auto 10px") ∷ [];
  brand_name =
      ("fontFamily", serif)
      ∷ ("fontWeight", "480")
      ∷ ("letterSpacing", "-0.01em")
      ∷ ("fontSize", "22px")
      ∷ ("color", light.ink)
      ∷ ("margin", "0")
      ∷ [];
  brand_tagline =
      ("fontFamily", sans)
      ∷ ("fontSize", "13px")
      ∷ ("color", light.ink_soft)
      ∷ ("margin", "4px 0 0")
      ∷ [];
  content = ("padding", "32px") ∷ [];
  h1 =
      ("fontFamily", serif)
      ∷ ("fontWeight", "480")
      ∷ ("letterSpacing", "-0.01em")
      ∷ ("fontSize", "21px")
      ∷ ("color", light.ink)
      ∷ ("margin", "0 0 16px")
      ∷ [];
  text = ("fontSize", "15px") ∷ ("color", light.ink_soft) ∷ ("lineHeight", "22px") ∷ [];
  card =
      ("backgroundColor", light.bg_card)
      ∷ ("border", str_append "1px solid " light.line)
      ∷ ("borderRadius", "10px")
      ∷ ("padding", "16px")
      ∷ ("marginTop", "16px")
      ∷ [];
  card_heading =
      ("fontFamily", sans)
      ∷ ("fontSize", "12px")
      ∷ ("fontWeight", "600")
      ∷ ("color", light.brown)
      ∷ ("textTransform", "uppercase")
      ∷ ("letterSpacing", "0.04em")
      ∷ ("margin", "0 0 8px")
      ∷ [];
  note_card =
      ("backgroundColor", light.bg_panel)
      ∷ ("border", str_append "1px solid " light.accent_soft)
      ∷ ("borderRadius", "10px")
      ∷ ("padding", "16px")
      ∷ ("marginTop", "12px")
      ∷ [];
  detail_row = ("fontSize", "14px") ∷ ("color", light.ink_soft) ∷ ("margin", "4px 0") ∷ [];
  button_section = ("textAlign", "center") ∷ ("marginTop", "24px") ∷ [];
  button_primary =
      ("backgroundColor", light.accent)
      ∷ ("color", "#ffffff")
      ∷ ("padding", "12px 22px")
      ∷ ("borderRadius", "999px")
      ∷ ("fontFamily", sans)
      ∷ ("fontWeight", "500")
      ∷ ("fontSize", "14px")
      ∷ ("textDecoration", "none")
      ∷ ("margin", "0 8px")
      ∷ ("display", "inline-block")
      ∷ [];
  button_secondary =
      ("backgroundColor", light.bg_card)
      ∷ ("color", light.ink)
      ∷ ("border", str_append "1px solid " light.ink)
      ∷ ("padding", "12px 22px")
      ∷ ("borderRadius", "999px")
      ∷ ("fontFamily", sans)
      ∷ ("fontWeight", "500")
      ∷ ("fontSize", "14px")
      ∷ ("textDecoration", "none")
      ∷ ("margin", "0 8px")
      ∷ ("display", "inline-block")
      ∷ [];
  calendar_note =
      ("textAlign", "center")
      ∷ ("marginTop", "10px")
      ∷ ("fontSize", "13px")
      ∷ ("color", light.ink_soft)
      ∷ ("lineHeight", "18px")
      ∷ [];
  manage_links_row =
      ("textAlign", "center")
      ∷ ("marginTop", "24px")
      ∷ ("fontSize", "13px")
      ∷ ("color", light.ink_soft)
      ∷ [];
  manage_link = ("color", light.ink_soft) ∷ ("textDecoration", "underline") ∷ [];
  manage_links_sep = ("color", light.line) ∷ [];
  hr = ("borderColor", light.line) ∷ ("marginTop", "32px") ∷ [];
  footer_text = ("fontSize", "12px") ∷ ("color", light.ink_soft) ∷ [];
}

-- ===== src/Notifications/Template/BookingEmail.antt =====
-- The component of notifications/templates/BookingEmail.tsx. The palette of its properties is a JSON
-- value, as the table holds it; `read_palette` gives it the type that the component declares.
use betti_coaching_calendar.Prelude.{
  ℕ, zero, suc, ◌||◌, String, Option, none, some, is_some, List, [], ◌∷◌, get_or,
}
use betti_coaching_calendar.Common.Json.{Json, property}
use betti_coaching_calendar.Notifications.Mail.{
  BookingEmailDetail, BookingEmailButton, BookingEmailLink, BookingEmailProps,
}
use betti_coaching_calendar.Notifications.Formats.{has_text}
use betti_coaching_calendar.Notifications.Template.Markup.{
  attribute, style, Style, Node, element, text, sheet, Nodes, done, also, join, shown_if, words,
  one, class_name,
}
use betti_coaching_calendar.Notifications.Template.Css.{build_font_and_dark_mode_css}
use betti_coaching_calendar.Notifications.Template.Styles.{
  EmailPalette, EmailBrandPalette, Styles, build_styles,
}

-- a `Text` with a style and a class
abbrev line : Style → String → Nodes → Node
line s class children = element "Text" (style s ∷ class_name class ∷ []) children

abbrev labelled : BookingEmailDetail → Nodes
labelled d =
    also (element "strong" [] (also (text d.label) (words ":"))) (also (text " ") (words d.value))

abbrev pub detail_rows : Styles → List BookingEmailDetail → Nodes
detail_rows styles [] = done
detail_rows styles (d ∷ ds) =
    also (line styles.detail_row "bcc-detail" (labelled d)) (detail_rows styles ds)

abbrev pub note_section : Styles → Option BookingEmailDetail → Nodes
note_section styles none = done
note_section styles (some note) = one (
    element "Section" (style styles.note_card ∷ class_name "bcc-note" ∷ [])
      (one (line styles.detail_row "bcc-detail" (labelled note))))

abbrev pub primary : Styles → Option BookingEmailButton → Nodes
primary styles none = done
primary styles (some b) =
    one
      (element "Button" (attribute "href" b.url ∷ style styles.button_primary ∷ []) (words b.label))

abbrev pub secondary : Styles → Option BookingEmailButton → Nodes
secondary styles none = done
secondary styles (some b) = one (
    element "Button"
      (attribute "href" b.url
        ∷ style styles.button_secondary
        ∷ class_name "bcc-button-secondary"
        ∷ [])
      (words b.label))

abbrev pub button_section : Styles → Option BookingEmailButton → Option BookingEmailButton → Nodes
button_section styles first second = shown_if (is_some first || is_some second) (
    one (
      element "Section" (style styles.button_section ∷ [])
        (join (primary styles first) (secondary styles second))))

-- the links from the `i`-th on, with a dot between two of them
abbrev pub link_row : Styles → ℕ → List BookingEmailLink → Nodes
link_row styles i [] = done
link_row styles zero (l ∷ ls) =
    also
      (element "a"
        (attribute "href" l.url ∷ style styles.manage_link ∷ class_name "bcc-manage-links" ∷ [])
        (words l.label))
      (link_row styles 1 ls)
link_row styles (suc i) (l ∷ ls) =
    also
      (element "span" (style styles.manage_links_sep ∷ class_name "bcc-manage-links" ∷ [])
        (words " · "))
      (also
        (element "a"
          (attribute "href" l.url ∷ style styles.manage_link ∷ class_name "bcc-manage-links" ∷ [])
          (words l.label))
        (link_row styles (suc (suc i)) ls))

abbrev pub manage_section : Styles → Option (List BookingEmailLink) → Nodes
manage_section styles none = done
manage_section styles (some []) = done
manage_section styles (some (l ∷ ls)) =
    one (line styles.manage_links_row "bcc-manage-links" (link_row styles 0 (l ∷ ls)))

abbrev pub optional : Style → String → Option String → Nodes
optional s class t = shown_if (has_text t) (one (line s class (words (get_or t ""))))

abbrev pub letterhead : Styles → BookingEmailProps → Node
letterhead styles p =
    element "Section" (style styles.letterhead ∷ class_name "bcc-letterhead" ∷ []) (
      also
        (element "Img"
          (attribute "src" p.logo_url
            ∷ attribute "width" "56"
            ∷ attribute "height" "56"
            ∷ attribute "alt" p.brand_name
            ∷ style styles.logo
            ∷ [])
          done)
        (also (line styles.brand_name "bcc-brand-name" (words p.brand_name))
          (optional styles.brand_tagline "bcc-brand-tagline" p.brand_tagline)))

abbrev card : Styles → BookingEmailProps → Node
card styles p = element "Section" (style styles.card ∷ class_name "bcc-card" ∷ []) (
    also (line styles.card_heading "bcc-card-heading" (words p.details_heading))
      (detail_rows styles p.details))

abbrev pub closing : Styles → BookingEmailProps → Nodes
closing styles p =
    also (element "Hr" (style styles.hr ∷ class_name "bcc-hr" ∷ []) done)
      (one (line styles.footer_text "bcc-footer" (words p.footer)))

-- what stands below the letterhead
abbrev pub content : Styles → BookingEmailProps → Node
content styles p = element "Section" (style styles.content ∷ []) (
    also (element "Heading" (style styles.h1 ∷ class_name "bcc-h1" ∷ []) (words p.heading)) (
      also (line styles.text "bcc-text" (words p.intro)) (
        also (card styles p) (
          join (note_section styles p.note) (
            join (optional styles.text "bcc-text" p.helper_text) (
              join (button_section styles p.primary_button p.secondary_button) (
                join (optional styles.calendar_note "bcc-manage-links" p.calendar_note)
                  (join (manage_section styles p.manage_links) (closing styles p)))))))))

unfoldable pub booking_email : EmailBrandPalette → BookingEmailProps → Node
unfolding build_styles build_font_and_dark_mode_css
booking_email palette p =
    let styles : Styles = build_styles palette.light in
    element "Html" [] (
      also (element "Head" [] (one (sheet (build_font_and_dark_mode_css palette.dark)))) (
        also (element "Preview" [] (words p.preview_text)) (
          one (
            element "Body" (style styles.main ∷ class_name "bcc-body" ∷ []) (
              one (
                element "Container" (style styles.container ∷ class_name "bcc-container" ∷ [])
                  (also (letterhead styles p) (one (content styles p)))))))))

-- a chain of reads
infixl 5 ◌>>=◌
abbrev ◌>>=◌ : {A B : Type 0} → Option A → (A → Option B) → Option B
none >>= f = none
some a >>= f = f a

abbrev pub color : String → Json → Option String
color key value = color_text (property key value)
  where
    color_text : Option Json → Option String
    color_text (some (Json.text c)) = some c
    color_text _ = none

unfoldable pub palette_of : Json → Option EmailPalette
unfolding property
palette_of value = do
  bg ← color "bg" value
  bg_panel ← color "bgPanel" value
  bg_card ← color "bgCard" value
  ink ← color "ink" value
  ink_soft ← color "inkSoft" value
  accent ← color "accent" value
  accent_soft ← color "accentSoft" value
  line ← color "line" value
  brown ← color "brown" value
  some (record {
    bg = bg;
    bg_panel = bg_panel;
    bg_card = bg_card;
    ink = ink;
    ink_soft = ink_soft;
    accent = accent;
    accent_soft = accent_soft;
    line = line;
    brown = brown;
  })

-- a value of the type `EmailBrandPalette`
unfoldable pub read_palette : Json → Option EmailBrandPalette
unfolding palette_of
read_palette value = do
  light_value ← property "light" value
  dark_value ← property "dark" value
  light ← palette_of light_value
  dark ← palette_of dark_value
  some (record { light = light; dark = dark })

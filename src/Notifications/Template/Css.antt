-- ===== src/Notifications/Template/Css.antt =====
-- buildFontAndDarkModeCss of notifications/templates/BookingEmail.tsx. A style sheet is the list of
-- its code points.
use betti_coaching_calendar.Prelude.{ℕ, String, List, [], ◌∷◌, ◌++◌}
use betti_coaching_calendar.Settings.Palette.{codes}
use betti_coaching_calendar.Notifications.Template.Styles.{EmailPalette}

-- `property: color !important;`
unfoldable pub declarations : List (String × String) → List ℕ
declarations [] = []
declarations ((property, color) ∷ ds) =
    codes property ++ (codes ": " ++ (codes color ++ (codes " !important; " ++ declarations ds)))

-- `selector { declarations }`, on a line
unfoldable pub rules : List (String × List (String × String)) → List ℕ
unfolding declarations
rules [] = []
rules ((selector, ds) ∷ rs) =
    codes "    "
    ++ (codes selector ++ (codes " { " ++ (declarations ds ++ (codes "}\n" ++ rules rs))))

abbrev pub dark_rules : EmailPalette → List (String × List (String × String))
dark_rules dark =
    (".bcc-body", ("background-color", dark.bg) ∷ [])
    ∷ (".bcc-container", ("background-color", dark.bg) ∷ [])
    ∷ (
      ".bcc-letterhead",
      ("background-color", dark.bg_panel) ∷ ("border-bottom-color", dark.line) ∷ [],
    )
    ∷ (".bcc-brand-name", ("color", dark.ink) ∷ [])
    ∷ (".bcc-brand-tagline", ("color", dark.ink_soft) ∷ [])
    ∷ (".bcc-h1, .bcc-detail strong", ("color", dark.ink) ∷ [])
    ∷ (".bcc-text, .bcc-detail", ("color", dark.ink_soft) ∷ [])
    ∷ (".bcc-card", ("background-color", dark.bg_card) ∷ ("border-color", dark.line) ∷ [])
    ∷ (".bcc-card-heading", ("color", dark.brown) ∷ [])
    ∷ (".bcc-note", ("background-color", dark.bg_panel) ∷ ("border-color", dark.accent_soft) ∷ [])
    ∷ (".bcc-hr", ("border-color", dark.line) ∷ [])
    ∷ (".bcc-footer", ("color", dark.ink_soft) ∷ [])
    ∷ (".bcc-manage-links", ("color", dark.ink_soft) ∷ [])
    ∷ (
      ".bcc-button-secondary",
      ("background-color", dark.bg_card) ∷ ("color", dark.ink) ∷ ("border-color", dark.line) ∷ [],
    )
    ∷ []

abbrev pub fonts : List ℕ
fonts =
    codes
      "\n  @import url('https://fonts.googleapis.com/css2?family=Fraunces:opsz,wght@9..144,480;9..144,560&family=Work+Sans:wght@400;500;600&display=swap');\n\n  @media (prefers-color-scheme: dark) {\n"

unfoldable pub build_font_and_dark_mode_css : EmailPalette → List ℕ
unfolding rules
build_font_and_dark_mode_css dark = fonts ++ (rules (dark_rules dark) ++ codes "  }\n")

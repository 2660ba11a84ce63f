-- ===== src/Notifications/Template/Sheet.antt =====
-- Colors of a style sheet give no way out of its element.
use betti_coaching_calendar.Prelude.{
  ℕ, ◌≡◌, refl, Bool, true, not, ◌&&◌, ◌==◌, and-eq-true, String, List, [], ◌∷◌, ◌++◌, arith,
}
use betti_coaching_calendar.Common.Json.{property}
use betti_coaching_calendar.Settings.Palette.{codes, is_hex_digit, is_hex_color}
use betti_coaching_calendar.Notifications.Template.Styles.{EmailPalette}
use betti_coaching_calendar.Notifications.Template.Css.{
  declarations, rules, dark_rules, fonts, build_font_and_dark_mode_css,
}

-- `#` and six hexadecimal digits
abbrev pub IsColor : String → Type 0
IsColor c = is_hex_color (codes c) ≡ true

pub record IsColored (p : EmailPalette) : Type 0 where
  pub bg : IsColor p.bg
  pub bg_panel : IsColor p.bg_panel
  pub bg_card : IsColor p.bg_card
  pub ink : IsColor p.ink
  pub ink_soft : IsColor p.ink_soft
  pub accent : IsColor p.accent
  pub accent_soft : IsColor p.accent_soft
  pub line : IsColor p.line
  pub brown : IsColor p.brown

-- no `<` in the text
abbrev pub stays_inside : List ℕ → Bool
stays_inside [] = true
stays_inside (x ∷ xs) = not (x == b'<') && stays_inside xs

stays_inside-append :
    (xs ys : List ℕ) → stays_inside (xs ++ ys) ≡ stays_inside xs && stays_inside ys
stays_inside-append [] ys = refl
stays_inside-append (x ∷ xs) ys = ground (arith, stays_inside-append xs ys)

hex_digit-inside : (x : ℕ) → is_hex_digit x ≡ true → not (x == b'<') ≡ true
hex_digit-inside x h = ground arith

stays_inside-hex_color : (c : List ℕ) → is_hex_color c ≡ true → stays_inside c ≡ true
unfolding is_hex_color
stays_inside-hex_color [] h = refl
stays_inside-hex_color (h ∷ a ∷ b ∷ c ∷ d ∷ e ∷ f ∷ []) k =
    let (k5, kf) = and-eq-true _ (is_hex_digit f) k in
    let (k4, ke) = and-eq-true _ (is_hex_digit e) k5 in
    let (k3, kd) = and-eq-true _ (is_hex_digit d) k4 in
    let (k2, kc) = and-eq-true _ (is_hex_digit c) k3 in
    let (k1, kb) = and-eq-true _ (is_hex_digit b) k2 in
    let (k0, ka) = and-eq-true _ (is_hex_digit a) k1 in
    let hash : not (h == b'<') ≡ true = ground arith in
    rw
      (
        hash,
        hex_digit-inside a ka,
        hex_digit-inside b kb,
        hex_digit-inside c kc,
        hex_digit-inside d kd,
        hex_digit-inside e ke,
        hex_digit-inside f kf,
      )
      refl
stays_inside-hex_color (_ ∷ _) h = cc

abbrev pair_inside : List (String × String) → Bool
pair_inside [] = true
pair_inside ((property, c) ∷ ds) =
    (stays_inside (codes property) && stays_inside (codes c)) && pair_inside ds

abbrev rules_inside : List (String × List (String × String)) → Bool
rules_inside [] = true
rules_inside ((selector, ds) ∷ rs) =
    (stays_inside (codes selector) && pair_inside ds) && rules_inside rs

append-inside :
    (xs ys : List ℕ)
    → stays_inside xs ≡ true
    → stays_inside ys ≡ true
    → stays_inside (xs ++ ys) ≡ true
append-inside xs ys h k = rw (stays_inside-append xs ys, h, k) refl

declarations-inside :
    (ds : List (String × String)) → pair_inside ds ≡ true → stays_inside (declarations ds) ≡ true
unfolding declarations
declarations-inside [] h = refl
declarations-inside ((property, c) ∷ ds) h =
    let (now, later) = and-eq-true _ _ h in
    let (a, b) = and-eq-true _ _ now in
    append-inside (codes property) _ a (append-inside (codes c) _ b (declarations-inside ds later))

rules-inside :
    (rs : List (String × List (String × String)))
    → rules_inside rs ≡ true
    → stays_inside (rules rs) ≡ true
unfolding rules
rules-inside [] h = refl
rules-inside ((selector, ds) ∷ rs) h =
    let (now, later) = and-eq-true _ _ h in
    let (a, b) = and-eq-true _ _ now in
    append-inside (codes selector) _ a
      (append-inside (declarations ds) _ (declarations-inside ds b) (rules-inside rs later))

pub css-inside :
    (p : EmailPalette) → IsColored p → stays_inside (build_font_and_dark_mode_css p) ≡ true
unfolding build_font_and_dark_mode_css
css-inside p h = append-inside fonts (rules (dark_rules p) ++ codes "  }\n") refl (
    append-inside (rules (dark_rules p)) (codes "  }\n")
      (rules-inside (dark_rules p) (
        rw
          (
            stays_inside-hex_color (codes p.bg) h.bg,
            stays_inside-hex_color (codes p.bg_panel) h.bg_panel,
            stays_inside-hex_color (codes p.bg_card) h.bg_card,
            stays_inside-hex_color (codes p.ink) h.ink,
            stays_inside-hex_color (codes p.ink_soft) h.ink_soft,
            stays_inside-hex_color (codes p.accent_soft) h.accent_soft,
            stays_inside-hex_color (codes p.line) h.line,
            stays_inside-hex_color (codes p.brown) h.brown,
          )
          refl))
      refl)

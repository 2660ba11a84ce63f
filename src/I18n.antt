-- ===== src/I18n.antt =====
-- i18n/i18n.service.ts: the choice of the locale, over i18next.
use betti_coaching_calendar.Prelude.{
  ℕ, String, str_eq, Option, none, some, List, [], ◌∷◌, any, if◌then◌else◌,
}

-- what a translation puts in
pub data Var : Type 0 where
  text : String → Var
  number : ℕ → Var

abbrev pub Vars : Type 0
Vars = List (String × Var)

abbrev pub supported_locales : List String
supported_locales = "hu" ∷ "en" ∷ []

abbrev pub default_locale : String
default_locale = "hu"

unfoldable pub resolve_locale : Option String → String
unfolding any
resolve_locale none = default_locale
resolve_locale (some locale) =
    if any (str_eq locale) supported_locales then locale else default_locale

-- `getFixedT` of i18next, with the texts that the program loads: locale, key and variables
abbrev pub FixedT : Type 0
FixedT = String → String → Vars → String

unfoldable pub t : FixedT → String → String → Vars → String
unfolding resolve_locale
t get_fixed_t key locale vars = get_fixed_t (resolve_locale (some locale)) key vars

-- ===== src/Auth/Letters.antt =====
-- auth/password-reset-email.service.ts and coaches/coach-invite-email.service.ts: the two emails to
-- a coach, whose HTML is written by hand. HTML is the list of its code points.
use betti_coaching_calendar.Prelude.{
  ℕ, ◌≡◌, refl, ap, ◌∙◌, sym, true, Bool-cases, inl, inr, String, List, [], ◌∷◌, ◌++◌, All,
  if◌then◌else◌,
}
use betti_coaching_calendar.Settings.Palette.{codes}
use betti_coaching_calendar.Common.Html.{escape_html, escape_html-plain, is_plain}
use betti_coaching_calendar.Auth.Token.{Token}
use betti_coaching_calendar.Auth.Service.{Mail, reset_link, invitation}

-- `SendRawEmailInput`
pub record SendRawEmailInput : Type 0 where
  pub to : String
  pub subject : String
  pub html : List ℕ

-- what differs between the two texts
pub record Wording : Type 0 where
  pub heading : String
  pub explanation : String
  pub label : String
  pub validity : String

-- up to the name
abbrev salutation : Wording → List ℕ
salutation w =
    codes "\n      <div style=\"font-family: sans-serif; max-width: 480px; margin: 0 auto;\">\n"
    ++ codes "        <h1 style=\"font-size: 20px;\">"
    ++ codes w.heading
    ++ codes "</h1>\n        <p>Szia "

-- what follows the name
abbrev message : Wording → List ℕ → List ℕ
message w url =
    codes "!</p>\n        <p>"
    ++ codes w.explanation
    ++ codes "</p>\n        <p>\n          <a href=\""
    ++ url
    ++ codes "\" style=\"display: inline-block; padding: 10px 20px; background: #1a1a1f; "
    ++ codes "color: #fff; text-decoration: none; border-radius: 6px;\">\n            "
    ++ codes w.label
    ++ codes "\n          </a>\n        </p>\n        <p style=\"color: #666; font-size: 13px;\">\n"
    ++ codes "          Ha a gomb nem működik, másold be ezt a linket a böngésződbe: "
    ++ url
    ++ codes "\n        </p>\n        <p style=\"color: #666; font-size: 13px;\">"
    ++ codes w.validity
    ++ codes "</p>\n      </div>\n    "

abbrev letter : Wording → List ℕ → List ℕ → List ℕ
letter w name url = salutation w ++ (escape_html name ++ message w url)

abbrev reset_wording : Wording
reset_wording = record {
  heading = "Jelszó visszaállítása";
  explanation = "Új jelszót kértél a fiókodhoz. Az alábbi linkre kattintva állíthatsz be egy újat:";
  label = "Új jelszó beállítása";
  validity =
      "A link 1 óráig érvényes. Ha nem te kérted, nyugodtan hagyd figyelmen kívül ezt az emailt.";
}

abbrev invite_wording : Wording
invite_wording = record {
  heading = "Meghívó";
  explanation =
      "Létrehoztunk neked egy fiókot. A jelszavad beállításához kattints az alábbi linkre:";
  label = "Jelszó beállítása";
  validity = "A link 7 napig érvényes.";
}

-- `encodeURIComponent` of a token
module _ (encode : Token → List ℕ) where
  abbrev reset_url : String → Token → List ℕ
  reset_url frontend_url token =
      codes frontend_url ++ codes "/reset-password?token=" ++ encode token

  abbrev accept_url : String → Token → List ℕ
  accept_url frontend_url token =
      codes frontend_url ++ codes "/accept-invite?token=" ++ encode token

  -- what `sendReset` hands to `sendRaw`
  abbrev reset_email : String → String → String → Token → SendRawEmailInput
  reset_email email name frontend_url token = record {
    to = email;
    subject = "Jelszó visszaállítása";
    html = letter reset_wording (codes name) (reset_url frontend_url token);
  }

  -- what `sendInvite` hands to `sendRaw`
  abbrev invite_email : String → String → String → Token → SendRawEmailInput
  invite_email email name frontend_url token = record {
    to = email;
    subject = "Meghívó a fiókod beállításához";
    html = letter invite_wording (codes name) (accept_url frontend_url token);
  }

  unfoldable pub email_of : Mail → SendRawEmailInput
  email_of (reset_link email name frontend_url token) = reset_email email name frontend_url token
  email_of (invitation email name frontend_url token) = invite_email email name frontend_url token

-- the characters that make tags and attributes, in their order
unfoldable pub tags_of : List ℕ → List ℕ
tags_of [] = []
tags_of (x ∷ xs) = let rest = tags_of xs in if is_plain x then rest else x ∷ rest

tags_of-append : (xs ys : List ℕ) → tags_of (xs ++ ys) ≡ tags_of xs ++ tags_of ys
unfolding tags_of
tags_of-append [] ys = refl
tags_of-append (x ∷ xs) ys = elim (Bool-cases (is_plain x)) [
  | inl e ↦ rw e (tags_of-append xs ys)
  | inr e ↦ rw e (ap (λ zs. x ∷ zs) (tags_of-append xs ys))
]

tags_of-plain : (xs : List ℕ) → All (λ x. is_plain x ≡ true) xs → tags_of xs ≡ []
unfolding tags_of
tags_of-plain [] h = refl
tags_of-plain (x ∷ xs) (h, hs) = rw h (tags_of-plain xs hs)

-- an escaped text between two others adds no tag
tags_of-between :
    (before name after : List ℕ)
    → tags_of (before ++ (escape_html name ++ after)) ≡ tags_of before ++ tags_of after
tags_of-between before name after =
    tags_of-append before (escape_html name ++ after)
    ∙ ap (λ zs. tags_of before ++ zs)
        (tags_of-append (escape_html name) after
          ∙ ap (λ zs. zs ++ tags_of after) (tags_of-plain _ (escape_html-plain name)))

abbrev pub with_name : String → Mail → Mail
with_name name (reset_link email _ url token) = reset_link email name url token
with_name name (invitation email _ url token) = invitation email name url token

-- A coach's name cannot change the markup of the email with the reset link or the invitation: for
-- any two names the characters `<`, `>` and `"` of the HTML are the same ones in the same order.
pub email_of-with_name :
    (encode : Token → List ℕ) (name : String) (mail : Mail)
    → tags_of (email_of encode (with_name name mail)).html ≡ tags_of (email_of encode mail).html
unfolding email_of
email_of-with_name encode name (reset_link email old url token) =
    let after = message reset_wording (reset_url encode url token) in
    tags_of-between (salutation reset_wording) (codes name) after
    ∙ sym (tags_of-between (salutation reset_wording) (codes old) after)
email_of-with_name encode name (invitation email old url token) =
    let after = message invite_wording (accept_url encode url token) in
    tags_of-between (salutation invite_wording) (codes name) after
    ∙ sym (tags_of-between (salutation invite_wording) (codes old) after)

-- ===== src/Notifications/Template/Shown.antt =====
-- Where the links of an email about a booking lead.
use betti_coaching_calendar.Prelude.{
  ◌≡◌, refl, ap, ◌∙◌, String, Option, none, some, List, [], ◌∷◌, ◌++◌, append-nil, append_assoc,
  Bool-cases, inl, inr, zero, suc, ℕ,
}
use betti_coaching_calendar.Notifications.Mail.{
  BookingEmailDetail, BookingEmailButton, BookingEmailLink, BookingEmailProps,
}
use betti_coaching_calendar.Notifications.Formats.{has_text}
use betti_coaching_calendar.Notifications.Template.Markup.{values, values_in, values_in-join, join}
use betti_coaching_calendar.Notifications.Template.Styles.{EmailBrandPalette, Styles, build_styles}
use betti_coaching_calendar.Notifications.Template.BookingEmail.{
  booking_email, note_section, button_section, link_row, manage_section, detail_rows, optional,
  content,
}

-- the addresses that the properties give
abbrev pub button_url : Option BookingEmailButton → List String
button_url none = []
button_url (some b) = b.url ∷ []

abbrev urls : List BookingEmailLink → List String
urls [] = []
urls (l ∷ ls) = l.url ∷ urls ls

abbrev pub link_urls : Option (List BookingEmailLink) → List String
link_urls none = []
link_urls (some ls) = urls ls

module _ (styles : Styles) where
  no_link-detail_rows :
      (ds : List BookingEmailDetail) → values_in "href" (detail_rows styles ds) ≡ []
  unfolding values
  no_link-detail_rows [] = refl
  no_link-detail_rows (d ∷ ds) = no_link-detail_rows ds

  no_link-note :
      (note : Option BookingEmailDetail) → values_in "href" (note_section styles note) ≡ []
  unfolding values
  no_link-note none = refl
  no_link-note (some note) = refl

  links-link_row :
      (i : ℕ) (ls : List BookingEmailLink) → values_in "href" (link_row styles i ls) ≡ urls ls
  unfolding values
  links-link_row i [] = refl
  links-link_row zero (l ∷ ls) = ap (λ us. l.url ∷ us) (links-link_row 1 ls)
  links-link_row (suc i) (l ∷ ls) = ap (λ us. l.url ∷ us) (links-link_row (suc (suc i)) ls)

  links-manage_section :
      (ls : Option (List BookingEmailLink))
      → values_in "href" (manage_section styles ls) ≡ link_urls ls
  unfolding values
  links-manage_section none = refl
  links-manage_section (some []) = refl
  links-manage_section (some (l ∷ ls)) = append-nil _ ∙ links-link_row 0 (l ∷ ls)

  links-button_section :
      (first second : Option BookingEmailButton)
      → values_in "href" (button_section styles first second)
        ≡ button_url first ++ button_url second
  unfolding values join
  links-button_section none none = refl
  links-button_section none (some s) = refl
  links-button_section (some f) none = refl
  links-button_section (some f) (some s) = refl

  no_link-optional :
      (s : List (String × String)) (class : String) (t : Option String)
      → values_in "href" (optional s class t) ≡ []
  unfolding values
  no_link-optional s class t = elim (Bool-cases (has_text t)) [
    | inl e ↦ rw e refl
    | inr e ↦ rw e refl
  ]

  links-content :
      (p : BookingEmailProps)
      → values "href" (content styles p)
        ≡ button_url p.primary_button ++ button_url p.secondary_button ++ link_urls p.manage_links
  unfolding values
  links-content p = simp (
    values_in-join, no_link-detail_rows, no_link-note, no_link-optional, links-button_section,
    links-manage_section, append-nil, append_assoc,
  )

-- The links of an email about a booking lead where its buttons and its manage links say, in this
-- order, and nowhere else.
pub booking_email-links :
    (palette : EmailBrandPalette) (p : BookingEmailProps)
    → values "href" (booking_email palette p)
      ≡ button_url p.primary_button ++ button_url p.secondary_button ++ link_urls p.manage_links
unfolding booking_email values
booking_email-links palette p =
    let styles : Styles = build_styles palette.light in
    simp (
      no_link-optional styles styles.brand_tagline "bcc-brand-tagline" p.brand_tagline,
      links-content styles p,
      append-nil,
    )

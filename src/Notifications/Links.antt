-- ===== src/Notifications/Links.antt =====
-- Where the links of the emails lead that notifications/notifications.service.ts composes.
use betti_coaching_calendar.Prelude.{◌≡◌, refl, ap, ◌∙◌, String, str_append, List, [], ◌∷◌, ◌++◌}
use betti_coaching_calendar.Http.{Result, ok, err, map_ok}
use betti_coaching_calendar.Schema.{Settings}
use betti_coaching_calendar.World.{NotificationKind}
use betti_coaching_calendar.Notifications.Formats.{Packages}
use betti_coaching_calendar.Notifications.Content.{
  EmailRecipient, client, coach, BookingEmailContext, build_confirmed, build_cancelled,
  build_rescheduled,
}
use betti_coaching_calendar.Notifications.Email.{SendEmailInput}
use betti_coaching_calendar.Notifications.Service.{
  BookingWithRelations, build_context, compose, content, ics_content, recipient_locale,
}
use betti_coaching_calendar.Notifications.Template.Markup.{values}
use betti_coaching_calendar.Notifications.Template.Styles.{EmailBrandPalette}
use betti_coaching_calendar.Notifications.Template.BookingEmail.{booking_email}
use betti_coaching_calendar.Notifications.Template.Shown.{
  button_url, link_urls, booking_email-links,
}

-- the addresses that a recipient gets
abbrev pub expected_links : NotificationKind → EmailRecipient → BookingEmailContext → List String
expected_links NotificationKind.cancelled recipient ctx = []
expected_links _ coach ctx = ctx.google_calendar_url ∷ []
expected_links _ client ctx =
    ctx.google_calendar_url
    ∷ str_append ctx.manage_url "&action=cancel#idopontfoglalas"
    ∷ str_append ctx.manage_url "&action=reschedule#idopontfoglalas"
    ∷ []

mapped {ℓ} :
    {A B : Type ℓ} (f : A → B) (r : Result A) (y : B) → map_ok f r ≡ ok y → (x : A) × (y ≡ f x)
mapped f (err e) y h = cc
mapped f (ok x) y h = (x, cc)

module _ (pk : Packages) where
  content-links :
      (kind : NotificationKind) (ctx : BookingEmailContext) (recipient : EmailRecipient)
      (locale : String)
      → button_url (content pk kind ctx recipient locale).props.primary_button
          ++ button_url (content pk kind ctx recipient locale).props.secondary_button
          ++ link_urls (content pk kind ctx recipient locale).props.manage_links
        ≡ expected_links kind recipient ctx
  unfolding build_confirmed build_cancelled build_rescheduled
  content-links NotificationKind.cancelled ctx client locale = refl
  content-links NotificationKind.cancelled ctx coach locale = refl
  content-links NotificationKind.confirmed ctx client locale = refl
  content-links NotificationKind.confirmed ctx coach locale = refl
  content-links NotificationKind.rescheduled ctx client locale = refl
  content-links NotificationKind.rescheduled ctx coach locale = refl

  compose-props :
      (recipient : EmailRecipient) (kind : NotificationKind) (b : BookingWithRelations)
      (settings : Settings) (input : SendEmailInput)
      → compose pk recipient kind b settings ≡ ok input
      → input.props
        ≡ (content pk kind
            (build_context pk b settings)
            recipient
            (recipient_locale recipient b)).props
  unfolding compose
  compose-props recipient kind b settings input e =
      let (file, made) = mapped _ (ics_content pk kind b (build_context pk b settings)) input e in
      ap (λ (x : SendEmailInput). x.props) made

-- An email about a cancellation has no link. In any other email the links are the one that adds the
-- event to Google Calendar and, for the client alone, the two by which the booking is cancelled or
-- moved; whatever the palette.
pub compose-links :
    (pk : Packages) (palette : EmailBrandPalette) (recipient : EmailRecipient)
    (kind : NotificationKind) (b : BookingWithRelations) (settings : Settings)
    (input : SendEmailInput)
    → compose pk recipient kind b settings ≡ ok input
    → values "href" (booking_email palette input.props)
      ≡ expected_links kind recipient (build_context pk b settings)
compose-links pk palette recipient kind b settings input e =
    booking_email-links palette input.props
    ∙ rw (compose-props pk recipient kind b settings input e) (
        content-links pk kind (build_context pk b settings) recipient
          (recipient_locale recipient b))

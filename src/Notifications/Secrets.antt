-- ===== src/Notifications/Secrets.antt =====
-- Who an email about a booking lets in.
use betti_coaching_calendar.Prelude.{ℕ, ◌≡◌, refl, ◌⊎◌, inl, inr}
use betti_coaching_calendar.Schema.{Settings}
use betti_coaching_calendar.World.{NotificationKind}
use betti_coaching_calendar.Notifications.Formats.{Packages}
use betti_coaching_calendar.Notifications.Content.{EmailRecipient, client, coach}
use betti_coaching_calendar.Notifications.Service.{BookingWithRelations, compose}

-- the booking with another manage token
abbrev pub with_token : ℕ → BookingWithRelations → BookingWithRelations
with_token token b = record b { booking = record b.booking { manage_token = token } }

-- The token by which a client cancels or moves a booking is in no email to the coach and in no email
-- about a cancellation: with another token these emails and their attachments are the same.
pub compose-with_token :
    (pk : Packages) (recipient : EmailRecipient) (kind : NotificationKind)
    (b : BookingWithRelations) (settings : Settings) (token : ℕ)
    → (recipient ≡ coach) ⊎ (kind ≡ NotificationKind.cancelled)
    → compose pk recipient kind (with_token token b) settings ≡ compose pk recipient kind b settings
unfolding compose
compose-with_token pk coach NotificationKind.confirmed b settings token h = refl
compose-with_token pk coach NotificationKind.cancelled b settings token h = refl
compose-with_token pk coach NotificationKind.rescheduled b settings token h = refl
compose-with_token pk client NotificationKind.cancelled b settings token h = refl
compose-with_token pk client NotificationKind.confirmed b settings token (inl h) = cc
compose-with_token pk client NotificationKind.confirmed b settings token (inr h) = cc
compose-with_token pk client NotificationKind.rescheduled b settings token (inl h) = cc
compose-with_token pk client NotificationKind.rescheduled b settings token (inr h) = cc

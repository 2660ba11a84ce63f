-- ===== src/Notifications/Email.antt =====
-- notifications/email.service.ts: the two providers, and which of them takes a message.
use betti_coaching_calendar.Prelude.{
  true, false, String, str_append, Option, none, some, [], ◌∷◌, ◌++◌, get_or, if◌then◌else◌,
}
use betti_coaching_calendar.Http.{Error, failure, Result, ok, err}
use betti_coaching_calendar.Action.{Action, lift, modify, throw_if, ◌>>=◌, ◌>>◌}
use betti_coaching_calendar.World.{World}
use betti_coaching_calendar.Notifications.Mail.{BookingEmailProps, Attachment, Provider, Message}
use betti_coaching_calendar.Notifications.Formats.{has_text}

-- the part of the configuration that the service reads
pub record EmailConfig : Type 0 where
  pub email_from : String
  pub resend_api_key : Option String

-- what a provider answers, if it is the one that is asked: `sendMail` of nodemailer, and `error` of
-- the answer of Resend, or what it throws
pub record ProviderAnswer : Type 0 where
  pub gmail : Result (Unit {0})
  pub resend : Result (Option String)

pub record SendEmailInput : Type 0 where
  pub to : String
  pub subject : String
  pub props : BookingEmailProps
  pub ics_content : Option String
  pub ics_filename : Option String
  pub from : Option String

abbrev pub attachment_of : SendEmailInput → Option Attachment
attachment_of input =
    if has_text input.ics_content
    then some (record {
      filename = get_or input.ics_filename "booking.ics";
      content = get_or input.ics_content "";
    })
    else none

abbrev pub message : Provider → String → SendEmailInput → Message
message provider from input = record {
  provider = provider;
  from = from;
  to = input.to;
  subject = input.subject;
  html = input.props;
  attachment = attachment_of input;
}

abbrev pub accept : Message → World → World
accept m w = record w { mails = w.mails ++ m ∷ [] }

-- `if (error) throw`
abbrev pub check_answer : Option String → Result (Unit {0})
check_answer none = ok tt
check_answer (some error) = err (failure (str_append "Resend send failed: " error))

abbrev pub no_key : String → Error
no_key from = failure (
    str_append "Settings.emailFrom is set to \""
      (str_append from "\" but RESEND_API_KEY is not configured"))

module _ (config : EmailConfig) (answer : ProviderAnswer) where
  unfoldable pub send_via_resend : String → SendEmailInput → Action World (Unit {0})
  unfolding ◌>>=◌
  send_via_resend from input = do
    throw_if (if has_text config.resend_api_key then false else true) (no_key from)
    error ← lift answer.resend
    lift (check_answer error)
    modify (accept (message Provider.resend from input))

  unfoldable pub send_via_gmail : SendEmailInput → Action World (Unit {0})
  unfolding ◌>>=◌
  send_via_gmail input = do
    lift answer.gmail
    modify (accept (message Provider.gmail config.email_from input))

  -- `deliver`, after the HTML was rendered
  unfoldable pub send : SendEmailInput → Action World (Unit {0})
  unfolding send_via_resend send_via_gmail
  send input =
      if has_text input.from
      then send_via_resend (get_or input.from "") input
      else send_via_gmail input

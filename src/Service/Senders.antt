-- ===== src/Service/Senders.antt =====
-- internal/adapter/service: email_sender.go, slack_sender.go, webhook_sender.go and
-- notification_dispatcher.go. The clients of net/http and net/smtp are parameters, and so is the signature,
-- HMAC-SHA256 in hexadecimal digits. A payload is not yet JSON. `none` is success.
use Prim.Native.String.{◌++◌}
use hivepulse.Prelude.{ℕ, String, ◌==◌, Option, none, some, ℤ, lookup, leb, if◌then◌else◌}
use hivepulse.Domain.{
  Time, Monitor, NotificationChannel, SmtpConfig, channel_email, channel_webhook, channel_slack,
  event_down, event_up, event_ssl_expiry,
}
use hivepulse.Service.Text.{decimal}

-- What becomes of a POST: no request, no answer, or a status code.
pub data Posted : Type 0 where
  not_posted : String → Posted
  replied : ℕ → Posted

abbrev posted : String → Posted → Option String
posted who (not_posted e) = some e
posted who (replied status) =
    if leb 400 status then some (who ++ " returned status " ++ decimal (ℤ.pos status)) else none

abbrev or_blank : Option String → String
or_blank none = ""
or_blank (some v) = v

-- `ch.Config[key]`
abbrev setting : String → NotificationChannel → String
setting key ch = or_blank (lookup key ch.config)

-- `formatSlackMessage`
unfoldable pub format_slack_message : String → Monitor → String
format_slack_message event m =
    if event == event_down
    then ":red_circle: *" ++ m.name ++ "* is DOWN"
    else if event == event_up
    then ":large_green_circle: *" ++ m.name ++ "* has recovered (UP)"
    else if event == event_ssl_expiry
    then ":warning: *" ++ m.name ++ "* SSL certificate is expiring soon"
    else "*" ++ m.name ++ "* notification: " ++ event

-- A sender of a kind of channel.
abbrev pub Sender : Type 0
Sender = NotificationChannel → String → Monitor → Option String

-- `SlackSender.Send`: `post` takes the URL and the text of the payload.
unfoldable pub slack_send : (String → String → Posted) → Sender
unfolding format_slack_message lookup
slack_send post ch event m =
    posted "slack webhook" (post (setting "webhook_url" ch) (format_slack_message event m))

pub record WebhookPayload : Type 0 where
  pub event : String
  pub monitor_id : String
  pub monitor_name : String
  pub timestamp : Time

-- The header X-HivePulse-Signature, if the channel has a secret.
abbrev signature : (String → WebhookPayload → String) → String → WebhookPayload → Option String
signature sign secret p = if secret == "" then none else some ("sha256=" ++ sign secret p)

-- `WebhookSender.Send`: `post` takes the URL, the payload and the signature.
unfoldable pub webhook_send :
    (String → WebhookPayload → Option String → Posted)
    → (String → WebhookPayload → String)
    → Time
    → Sender
unfolding lookup
webhook_send post sign now ch event m =
    let payload : WebhookPayload = record {
      event = event;
      monitor_id = m.id;
      monitor_name = m.name;
      timestamp = now;
    } in
    posted "webhook"
      (post (setting "url" ch) payload (signature sign (setting "secret" ch) payload))

pub record Email : Type 0 where
  pub server : SmtpConfig
  pub to : String
  pub subject : String
  pub body : String

abbrev subject_of : String → Monitor → String
subject_of event m =
    if event == event_down
    then "[HivePulse] ALERT: " ++ m.name ++ " is DOWN"
    else if event == event_up
    then "[HivePulse] RESOLVED: " ++ m.name ++ " is UP"
    else if event == event_ssl_expiry
    then "[HivePulse] SSL WARNING: " ++ m.name ++ " certificate expiring soon"
    else ""

abbrev body_of : String → Monitor → String
body_of event m =
    if event == event_down
    then "Monitor " ++ m.name ++ " (" ++ m.id
      ++ ") is DOWN.\n\nCheck your HivePulse dashboard for details."
    else if event == event_up
    then "Monitor " ++ m.name ++ " (" ++ m.id ++ ") has recovered and is UP."
    else if event == event_ssl_expiry
    then "Monitor " ++ m.name ++ " (" ++ m.id
      ++ "): SSL certificate is expiring soon.\nCheck your HivePulse dashboard for days remaining."
    else ""

-- `EmailSender.Send`: without a server it does nothing, and says that all is well. `send_mail` is
-- net/smtp's, with the text that the code puts together.
unfoldable pub email_send : (Email → Option String) → SmtpConfig → Sender
unfolding lookup
email_send send_mail cfg ch event m =
    if cfg.host == ""
    then none
    else send_mail (record {
      server = cfg;
      to = setting "to" ch;
      subject = subject_of event m;
      body = body_of event m;
    })

-- `NotificationDispatcher.Send`
unfoldable pub dispatch : Sender → Sender → Sender → Sender
dispatch email webhook slack ch event m =
    if ch.kind == channel_email
    then email ch event m
    else if ch.kind == channel_webhook
    then webhook ch event m
    else if ch.kind == channel_slack
    then slack ch event m
    else some ("unknown channel type: " ++ ch.kind)

-- ===== src/Program.antt =====
-- cmd/oss/main.go: the components put together.
pub mod Probing
pub mod Start
pub mod Unsent
pub mod Alarm
pub mod Config
pub mod Web
use hivepulse.Prelude.{ℕ, String, ◌==◌, Option, none, some, List, [], ◌∷◌, ℤ, if◌then◌else◌}
use hivepulse.Domain.{
  Result, ok, err, Time, Monitor, SmtpConfig, check_http, check_tcp, check_ping, check_dns,
}
use hivepulse.World.{World}
use hivepulse.Repo.Monitors
use hivepulse.Usecase.Checker.{Checkers}
use hivepulse.Usecase.Monitor.{SchedulerService}
use hivepulse.Service.Http
use hivepulse.Service.Http.{HttpRequest, Exchange}
use hivepulse.Service.Probes
use hivepulse.Service.Probes.{Attempt, Lookup, Pings}
use hivepulse.Service.Senders.{
  Sender, Posted, WebhookPayload, Email, dispatch, email_send, webhook_send, slack_send,
}

-- What the network answers to the probes of each attempt, when it begins, and Go's `%q`.
pub record Network : Type 0 where
  pub begins : ℕ → Time
  pub exchange : ℕ → HttpRequest → Exchange
  pub dial : ℕ → ℤ → String → Attempt
  pub ping : ℕ → String → ℤ → ℤ → Pings
  pub resolve : ℕ → String → ℤ → String → Lookup → Attempt
  pub quoted : String → String

-- The map of checkers that main.go gives to `NewCheckerUsecase`.
unfoldable pub checkers : Network → Checkers
checkers n kind =
    if kind == check_http
    then some (λ i m. Http.check_http n.quoted (n.exchange i) (n.begins i) m)
    else if kind == check_tcp
    then some (λ i m. Probes.check_tcp (n.dial i) (n.begins i) m)
    else if kind == check_ping
    then some (λ i m. Probes.check_ping (n.ping i) (n.begins i) m)
    else if kind == check_dns
    then some (λ i m. Probes.check_dns (n.resolve i) (n.begins i) m)
    else none

-- What becomes of the messages, and the signature.
pub record Outside : Type 0 where
  pub send_mail : Email → Option String
  pub post_hook : String → WebhookPayload → Option String → Posted
  pub post_slack : String → String → Posted
  pub sign : String → WebhookPayload → String

-- The dispatcher that main.go gives to `NewNotificationUsecase`.
unfoldable pub dispatcher : Outside → SmtpConfig → Time → Sender
unfolding dispatch email_send webhook_send slack_send
dispatcher o cfg now =
    dispatch (email_send o.send_mail cfg) (webhook_send o.post_hook o.sign now)
      (slack_send o.post_slack)

module _ (scheduler : SchedulerService) where
  open scheduler use {Jobs, add}

  abbrev add_all : List Monitor → Jobs → Jobs
  add_all [] jobs = jobs
  add_all (m ∷ ms) jobs = add_all ms (add m jobs)

  abbrev started : Result (List Monitor) → Jobs → Jobs
  started (err e) jobs = jobs
  started (ok ms) jobs = add_all ms jobs

  -- The loop at the start that adds the enabled monitors.
  unfoldable pub load_jobs : World → Jobs → World × Jobs
  load_jobs w jobs = let (r, w1) = Monitors.find_all_enabled w in (w1, started r jobs)

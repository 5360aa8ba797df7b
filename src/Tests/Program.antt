-- ===== src/Tests/Program.antt =====
-- The program over a network that answers every HTTP request with the status 200 and one page.
use hivepulse.Prelude.{ℕ, ◌==◌, ◌≡◌, refl, true, ◌||◌, some, none, ℤ}
use hivepulse.Domain.{Monitor, Heartbeat}
use hivepulse.Service.Http.{HttpRequest, Exchange, answered, whole, request_of, check_http}
use hivepulse.Service.Text.{bytes, contains_bytes}
use hivepulse.Service.Http.Verdict.{is_expected, check_http_lem}
use hivepulse.Service.Probes.{ran}
use hivepulse.Program.{Network, checkers}
use hivepulse.Program.Probing.{Fits, checkers_fit}
use hivepulse.Tests.Data.{site, start}

abbrev hello : HttpRequest → Exchange
hello r = answered 12 200 (whole (bytes "hello world"))

abbrev network : Network
network = record {
  begins = λ i. start;
  exchange = λ i. hello;
  dial = λ i timeout address. record { ms = 3; error = none };
  ping = λ i host count timeout. ran 0 0;
  resolve = λ i server timeout host kind. record { ms = 3; error = some "no such host" };
  quoted = λ t. t;
}

abbrev greeter : Monitor
greeter = record site { expected_status = ℤ.pos 200; expected_keyword = "world" }

check_http_example :
    let hb = check_http (λ t. t) hello start greeter in
    ((hb.status == "up") ≡ is_expected greeter (hello (request_of greeter)))
    × ((hb.status == "up" || hb.status == "down") ≡ true)
    × (hb.monitor_id ≡ "m1")
check_http_example = check_http_lem (λ t. t) hello start greeter

greeter_is_greeted : is_expected greeter (hello (request_of greeter)) ≡ true
unfolding contains_bytes
greeter_is_greeted = refl

checkers_fit_example :
    (check : ℕ → Monitor → Heartbeat) × (checkers network "http" ≡ some check)
    × ((i : ℕ) → Fits greeter (check i greeter))
checkers_fit_example = checkers_fit network greeter refl

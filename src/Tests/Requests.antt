-- ===== src/Tests/Requests.antt =====
-- A request for a monitor, a listing, and an edit of a channel.
use hivepulse.Prelude.{String, eq_iff, ◌≡◌, ◌≢◌, ◌↔◌, refl, true, false, some, ℤ, arith}
use hivepulse.Domain.{ok}
use hivepulse.Repo.Monitors.{fits_columns}
use hivepulse.Usecase.Monitor.{MonitorRequest, validate}
use hivepulse.Usecase.Monitor.Valid.{IsValid, validate_iff}
use hivepulse.Prelude.{none}
use hivepulse.World.{first_id}
use hivepulse.Prelude.{trim_space}
use hivepulse.Usecase.Monitor.{validate_target, req_to_monitor, SchedulerService}
use hivepulse.Usecase.Checker.{run_check}
use hivepulse.Handler.Monitors.{MonitorWriteRequest, to_monitor_request, create}
use hivepulse.Handler.Monitors.Answers.{create_answers}
use hivepulse.Handler.Monitors.Panic.{negative_retries_panic}
use hivepulse.Tests.Data.{world, flaky, only_http}

abbrev request : MonitorRequest
request = record {
  name = " site ";
  check_type = "tcp";
  interval = ℤ.pos 60;
  timeout = ℤ.pos 10;
  retries = ℤ.pos 2;
  retry_interval = ℤ.pos 5;
  enabled = true;
  url = "";
  method = "";
  expected_status = ℤ.pos 0;
  request_headers = "";
  request_body = "";
  follow_redirects = false;
  skip_tls_verify = false;
  expected_keyword = "";
  host = "example.com";
  port = ℤ.pos 443;
  ping_host = "";
  packet_count = ℤ.pos 0;
  dns_host = "";
  record_type = "";
  expected_value = "";
  dns_server = "";
}

validate_iff_example : (validate request ≡ ok tt) ↔ IsValid request
validate_iff_example = validate_iff request

abbrev renewed : String
renewed = "n3w"

renewed_shown : renewed ≢ "***"
renewed_shown e = ground (arith, eq_iff renewed "***")

abbrev form : MonitorWriteRequest
form = record {
  name = "site";
  check_type = "http";
  interval = ℤ.pos 60;
  timeout = ℤ.pos 10;
  retries = ℤ.negsuc 0;
  retry_interval = ℤ.pos 5;
  enabled = some true;
  url = "https://example.com";
  method = "";
  expected_status = ℤ.pos 0;
  request_headers = "";
  request_body = "";
  follow_redirects = none;
  skip_tls_verify = false;
  expected_keyword = "";
  host = "";
  port = ℤ.pos 0;
  ping_host = "";
  packet_count = ℤ.pos 0;
  dns_host = "";
  record_type = "";
  expected_value = "";
  dns_server = "";
}

abbrev idle : SchedulerService
idle = record { Jobs = Unit {0}; add = λ m j. j; remove = λ id j. j; update = λ m j. j }

form_passes : validate (to_monitor_request form) ≡ ok tt
unfolding validate to_monitor_request validate_target trim_space
form_passes = refl

form-IsValid : IsValid (to_monitor_request form)
form-IsValid = (validate_iff (to_monitor_request form)).0 form_passes

form_fits : fits_columns (req_to_monitor "u1" (to_monitor_request form)) ≡ true
unfolding fits_columns req_to_monitor to_monitor_request
form_fits = refl

create_answers_example : ((create idle "u1" (some form) world tt).0 ≡ 201) ↔ (
    IsValid (to_monitor_request form)
    × (fits_columns (req_to_monitor "u1" (to_monitor_request form)) ≡ true))
create_answers_example = create_answers idle "u1" form world tt refl refl

negative_retries_panic_example :
    ((create idle "u1" (some form) world tt).0 ≡ 201)
    × (run_check
          (only_http flaky)
          true
          (first_id world.fresh)
          (create idle "u1" (some form) world tt).1
        ≡ none)
negative_retries_panic_example =
    negative_retries_panic idle "u1" form world tt (only_http flaky) true flaky refl refl refl
      form-IsValid form_fits refl refl refl

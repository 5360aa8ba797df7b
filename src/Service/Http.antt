-- ===== src/Service/Http.antt =====
-- internal/adapter/service/http_checker.go. The client of net/http is a parameter, `exchange`, and so is
-- Go's quoting of a text, `%q`.
pub mod Verdict
use Prim.Native.String.{◌++◌}
use hivepulse.Prelude.{
  ℕ, String, ◌==◌, Bool, true, false, not, Option, none, some, ℤ, eqb_ℤ, List, length, take, leb,
  ltb, if◌then◌else◌,
}
use hivepulse.Domain.{Time, Monitor, Heartbeat}
use hivepulse.Service.Text.{decimal, contains_bytes}

-- What the client sends, and how.
pub record HttpRequest : Type 0 where
  pub method : String
  pub url : String
  pub timeout : ℤ
  pub skip_tls_verify : Bool
  pub follow_redirects : Bool

-- The bytes of a body that can be read, and whether the next read ends it or fails.
pub data Body : Type 0 where
  broken_off : List ℕ → String → Body
  whole : List ℕ → Body

-- `1 << 20`
abbrev pub limit : ℕ
limit = 1048576

-- What `io.LimitReader` leaves of a body: after the limit it ends, and nothing more is read.
abbrev pub limited : Body → Body
limited (broken_off text e) =
    if leb limit (length text) then whole (take limit text) else broken_off text e
limited (whole text) = whole (take limit text)

-- A request that cannot be made; no answer after some milliseconds; or an answer, with its status code.
pub data Exchange : Type 0 where
  no_request : String → Exchange
  no_answer : ℕ → String → Exchange
  answered : ℕ → ℕ → Body → Exchange

-- A new heartbeat.
abbrev pub blank : Time → Monitor → Heartbeat
blank now m = record {
  id = 0;
  monitor_id = m.id;
  status = "";
  ping_ms = 0;
  status_code = 0;
  error_msg = "";
  checked_at = now;
}

abbrev pub request_of : Monitor → HttpRequest
request_of m = record {
  method = m.method;
  url = m.url;
  timeout = m.timeout;
  skip_tls_verify = m.skip_tls_verify;
  follow_redirects = m.follow_redirects;
}

-- `if pingMS < 1 { pingMS = 1 }`
abbrev at_least_one : ℕ → ℕ
at_least_one ms = if ltb ms 1 then 1 else ms

abbrev pub down : String → Heartbeat → Heartbeat
down message hb = record hb { status = "down"; error_msg = message }

module _ (quoted : String → String) where
  abbrev pub with_body : String → Body → Heartbeat → Heartbeat
  with_body keyword (broken_off text e) hb = down ("failed to read response body: " ++ e) hb
  with_body keyword (whole text) hb =
      if not (contains_bytes text keyword)
      then down ("keyword " ++ quoted keyword ++ " not found in response body") hb
      else hb

  abbrev pub judged : Time → Monitor → Exchange → Heartbeat
  judged now m (no_request e) = down e (blank now m)
  judged now m (no_answer ms e) = down e (record (blank now m) { ping_ms = at_least_one ms })
  judged now m (answered ms status body) =
      let hb : Heartbeat = record (blank now m) {
        ping_ms = at_least_one ms;
        status_code = status;
      } in
      let up : Heartbeat = record hb { status = "up" } in
      if not (eqb_ℤ (ℤ.pos status) m.expected_status)
      then down
          ("expected status " ++ decimal m.expected_status ++ ", got " ++ decimal (ℤ.pos status)) hb
      else if not (m.expected_keyword == "")
      then with_body m.expected_keyword (limited body) up
      else up

  -- `HTTPChecker.Check`
  unfoldable pub check_http : (HttpRequest → Exchange) → Time → Monitor → Heartbeat
  check_http exchange now m = judged now m (exchange (request_of m))

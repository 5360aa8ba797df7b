-- ===== src/Service/Probes.antt =====
-- internal/adapter/service: tcp_checker.go, ping_checker.go and dns_checker.go. What the network answers is
-- a parameter: an error or none, and how long it took.
use Prim.Native.String.{◌++◌}
use hivepulse.Prelude.{ℕ, String, ◌==◌, ◌||◌, Option, none, some, ℤ, ltb_ℤ, ltb, if◌then◌else◌}
use hivepulse.Domain.{Time, Monitor, Heartbeat}
use hivepulse.Service.Text.{decimal}
use hivepulse.Service.Http.{blank, down}

-- The milliseconds that passed, and the error, if there was one.
pub record Attempt : Type 0 where
  pub ms : ℕ
  pub error : Option String

abbrev pub timed : Attempt → Heartbeat → Heartbeat
timed a hb = elim a.error [
  | none ↦ record hb { ping_ms = a.ms; status = "up" }
  | some e ↦ down e (record hb { ping_ms = a.ms })
]

-- `TCPChecker.Check`: `dial` takes the timeout and the address.
unfoldable pub check_tcp : (ℤ → String → Attempt) → Time → Monitor → Heartbeat
check_tcp dial now m = timed (dial m.timeout (m.host ++ ":" ++ decimal m.port)) (blank now m)

-- The lookups of a resolver.
pub data Lookup : Type 0 where
  lookup_host lookup_cname lookup_mx lookup_txt : Lookup

abbrev kind_of : String → Option Lookup
kind_of t =
    if t == "A" || t == "AAAA"
    then some lookup_host
    else if t == "CNAME"
    then some lookup_cname
    else if t == "MX"
    then some lookup_mx
    else if t == "TXT"
    then some lookup_txt
    else none

abbrev looked_up : (Lookup → Attempt) → String → Option Lookup → Attempt
looked_up resolve t none = record { ms = 0; error = some ("unsupported record type: " ++ t) }
looked_up resolve t (some kind) = resolve kind

-- `DNSChecker.Check`: `resolve` takes the DNS server, "" for that of the system, the timeout and the host.
unfoldable pub check_dns : (String → ℤ → String → Lookup → Attempt) → Time → Monitor → Heartbeat
check_dns resolve now m =
    timed
      (looked_up (resolve m.dns_server m.timeout m.dns_host) m.record_type (kind_of m.record_type))
      (blank now m)

-- What a run of the pinger comes to: an error, or the packets received and their mean round trip.
pub data Pings : Type 0 where
  not_run : String → Pings
  ran : ℕ → ℕ → Pings

abbrev pub pinged : Pings → Heartbeat → Heartbeat
pinged (not_run e) hb = down e hb
pinged (ran received rtt) hb =
    if ltb 0 received
    then record hb { status = "up"; ping_ms = rtt }
    else down "all packets lost" hb

abbrev pub packets : Monitor → ℤ
packets m = if ltb_ℤ (ℤ.pos 0) m.packet_count then m.packet_count else ℤ.pos 3

-- `PINGChecker.Check`: `ping` takes the host, the number of packets and the timeout.
unfoldable pub check_ping : (String → ℤ → ℤ → Pings) → Time → Monitor → Heartbeat
check_ping ping now m = pinged (ping m.ping_host (packets m) m.timeout) (blank now m)

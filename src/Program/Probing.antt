-- ===== src/Program/Probing.antt =====
-- The checkers of the program and the checks that use them.
use hivepulse.Prelude.{
  ℕ, ℤ, String, ◌==◌, ◌≡◌, refl, true, ◌||◌, some, ltb, Bool-cases, inl, inr, arith, Option-cases,
}
use hivepulse.Domain.{Time, Monitor, Heartbeat, check_http, check_tcp, check_ping, check_dns}
use hivepulse.Repo.Monitors.{known_check_type}
use hivepulse.Service.Http.{blank}
use hivepulse.Service.Http.Verdict.{check_http_lem}
use hivepulse.Service.Probes
use hivepulse.Service.Probes.{Lookup, packets, Attempt, timed, Pings, not_run, ran, pinged}
use hivepulse.Program.{Network, checkers}

-- A heartbeat of the monitor that the table takes.
abbrev pub Fits : Monitor → Heartbeat → Type 0
Fits m hb = ((hb.status == "up" || hb.status == "down") ≡ true) × (hb.monitor_id ≡ m.id)

timed-Fits : (a : Attempt) (now : Time) (m : Monitor) → Fits m (timed a (blank now m))
timed-Fits a now m = elim (Option-cases a.error) [
  | inl fine ↦ rw fine (refl, refl)
  | inr (e, failed) ↦ rw failed (refl, refl)
]

pinged-Fits : (p : Pings) (now : Time) (m : Monitor) → Fits m (pinged p (blank now m))
pinged-Fits (not_run e) now m = (refl, refl)
pinged-Fits (ran received rtt) now m = elim (Bool-cases (ltb 0 received)) [
  | inl some_back ↦ rw some_back (refl, refl)
  | inr lost ↦ rw lost (refl, refl)
]

check_tcp-Fits :
    (dial : ℤ → String → Attempt) (now : Time) (m : Monitor) → Fits m (Probes.check_tcp dial now m)
unfolding Probes.check_tcp
check_tcp-Fits dial now m = timed-Fits _ now m

check_ping-Fits :
    (ping : String → ℤ → ℤ → Pings) (now : Time) (m : Monitor)
    → Fits m (Probes.check_ping ping now m)
unfolding Probes.check_ping
check_ping-Fits ping now m = pinged-Fits (ping m.ping_host (packets m) m.timeout) now m

check_dns-Fits :
    (resolve : String → ℤ → String → Lookup → Attempt) (now : Time) (m : Monitor)
    → Fits m (Probes.check_dns resolve now m)
unfolding Probes.check_dns
check_dns-Fits resolve now m = timed-Fits _ now m

-- Each type of check that the table of monitors takes has a checker, and every attempt of it, whatever the
-- network answers, gives a heartbeat of that monitor that is up or down, the statuses that the table of
-- heartbeats takes.
pub checkers_fit :
    (n : Network) (m : Monitor)
    → known_check_type m.check_type ≡ true
    → (check : ℕ → Monitor → Heartbeat) × (checkers n m.check_type ≡ some check)
      × ((i : ℕ) → Fits m (check i m))
unfolding checkers
checkers_fit n m known = elim (Bool-cases (m.check_type == check_http)) [
  | inl a ↦ rw a (
    _,
    refl,
    λ i.
        let (verdict, fits, mine) = check_http_lem n.quoted (n.exchange i) (n.begins i) m in
        (fits, mine),
  )
  | inr a ↦ elim (Bool-cases (m.check_type == check_tcp)) [
    | inl b ↦ rw (a, b) (_, refl, λ i. check_tcp-Fits (n.dial i) (n.begins i) m)
    | inr b ↦ elim (Bool-cases (m.check_type == check_ping)) [
      | inl c ↦ rw (a, b, c) (_, refl, λ i. check_ping-Fits (n.ping i) (n.begins i) m)
      | inr c ↦ elim (Bool-cases (m.check_type == check_dns)) [
        | inl d ↦ rw (a, b, c, d) (_, refl, λ i. check_dns-Fits (n.resolve i) (n.begins i) m)
        | inr d ↦ ground arith
      ]
    ]
  ]
]

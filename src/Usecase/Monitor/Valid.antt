-- ===== src/Usecase/Monitor/Valid.antt =====
-- Which requests pass the validation, and what becomes of them.
use Prim.Native.String.{count}
use hivepulse.Prelude.{
  ℕ, ◌≤◌, ◌==◌, ◌≡◌, ◌≢◌, ◌↔◌, inl, inr, refl, true, false, ◌||◌, Bool-cases, ltb_ℤ, ℤ, arith,
  eq_iff, trim_space,
}
use hivepulse.Domain.{ok}
use hivepulse.Usecase.Monitor.{MonitorRequest, is_valid_interval, validate_target, validate}

-- What each type of check has to have.
pub data HasTarget (req : MonitorRequest) : Type 0 where
  http : req.check_type ≡ "http" → req.url ≢ "" → HasTarget req
  tcp :
      (p : ℕ)
      → req.check_type ≡ "tcp"
      → req.host ≢ ""
      → req.port ≡ ℤ.pos p
      → 1 ≤ p
      → p ≤ 65535
      → HasTarget req
  ping : req.check_type ≡ "ping" → req.ping_host ≢ "" → HasTarget req
  dns : req.check_type ≡ "dns" → req.dns_host ≢ "" → req.record_type ≢ "" → HasTarget req

pub record IsValid (req : MonitorRequest) : Type 0 where
  pub named : trim_space req.name ≢ ""
  pub short : count req.name ≤ 100
  pub timed : is_valid_interval req.interval ≡ true
  pub target : HasTarget req

target_complete : {req : MonitorRequest} → HasTarget req → validate_target req ≡ ok tt
unfolding validate_target
target_complete {req} (http t u) = ground (arith, eq_iff req.check_type "http", eq_iff req.url "")
target_complete {req} (tcp p t h e lo hi) = ground (
  arith,
  eq_iff req.check_type "http",
  eq_iff req.check_type "tcp",
  eq_iff "tcp" "http",
  eq_iff req.host "",
)
target_complete {req} (ping t h) = ground (
  arith,
  eq_iff req.check_type "http",
  eq_iff req.check_type "tcp",
  eq_iff req.check_type "ping",
  eq_iff "ping" "http",
  eq_iff "ping" "tcp",
  eq_iff req.ping_host "",
)
target_complete {req} (dns t h r) = ground (
  arith,
  eq_iff req.check_type "http",
  eq_iff req.check_type "tcp",
  eq_iff req.check_type "ping",
  eq_iff req.check_type "dns",
  eq_iff "dns" "http",
  eq_iff "dns" "tcp",
  eq_iff "dns" "ping",
  eq_iff req.dns_host "",
  eq_iff req.record_type "",
)

port_of :
    (i : ℤ)
    → (ltb_ℤ i (ℤ.pos 1) || ltb_ℤ (ℤ.pos 65535) i) ≡ false
    → (p : ℕ) × (i ≡ ℤ.pos p) × (1 ≤ p) × (p ≤ 65535)
port_of (ℤ.pos p) h = (p, refl, ground arith, ground arith)
port_of (ℤ.negsuc p) h = cc

target_sound : (req : MonitorRequest) → validate_target req ≡ ok tt → HasTarget req
unfolding validate_target
target_sound req h = elim (Bool-cases (req.check_type == "http")) [
  | inl a ↦ http ((eq_iff req.check_type "http").0 a) (ground (arith, eq_iff req.url ""))
  | inr a ↦ elim (Bool-cases (req.check_type == "tcp")) [
    | inl b ↦
        let (p, e, lo, hi) = port_of req.port (ground arith) in
        tcp p ((eq_iff req.check_type "tcp").0 b) (ground (arith, eq_iff req.host "")) e lo hi
    | inr b ↦ elim (Bool-cases (req.check_type == "ping")) [
      | inl c ↦ ping ((eq_iff req.check_type "ping").0 c) (ground (arith, eq_iff req.ping_host ""))
      | inr c ↦
          dns ((eq_iff req.check_type "dns").0 (ground arith))
            (ground (arith, eq_iff req.dns_host "")) (ground (arith, eq_iff req.record_type ""))
    ]
  ]
]

-- A request passes exactly when it is valid: a name that is not blank, of at most 100 characters, one
-- of the eight intervals, and what its type of check has to have.
pub validate_iff : (req : MonitorRequest) → (validate req ≡ ok tt) ↔ IsValid req
unfolding validate
validate_iff req = (
  λ h. record {
    named = ground (arith, eq_iff (trim_space req.name) "");
    short = ground arith;
    timed = ground arith;
    target = target_sound req (ground arith);
  },
  λ v. ground (arith, eq_iff (trim_space req.name) "", target_complete v.target),
)

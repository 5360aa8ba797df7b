-- ===== src/Service/Http/Verdict.antt =====
-- When an HTTP monitor is up.
use hivepulse.Prelude.{
  String, ◌==◌, ◌≡◌, refl, Bool, true, false, ◌||◌, ◌&&◌, ℤ, eqb_ℤ, length, take, leb, Bool-cases,
  inl, inr,
}
use hivepulse.Domain.{Time, Monitor, Heartbeat}
use hivepulse.Service.Text.{contains_bytes}
use hivepulse.Service.Http.{
  HttpRequest, Body, broken_off, whole, limited, with_body, Exchange, no_request, no_answer,
  answered, request_of, judged, check_http,
}

-- The first MiB can be read and has the keyword, if one is asked for.
abbrev pub has_keyword : String → Body → Bool
has_keyword keyword (broken_off text e) =
    keyword == "" || (leb 1048576 (length text) && contains_bytes (take 1048576 text) keyword)
has_keyword keyword (whole text) = keyword == "" || contains_bytes (take 1048576 text) keyword

-- The answer is the one that the monitor asks for.
abbrev pub is_expected : Monitor → Exchange → Bool
is_expected m (no_request e) = false
is_expected m (no_answer ms e) = false
is_expected m (answered ms status body) =
    eqb_ℤ (ℤ.pos status) m.expected_status && has_keyword m.expected_keyword body

module _ (quoted : String → String) where
  -- The heartbeat belongs to the monitor and can be stored, and it is up for the right answers.
  abbrev Fits : Monitor → Exchange → Heartbeat → Type 0
  Fits m x hb =
      ((hb.status == "up") ≡ is_expected m x)
      × ((hb.status == "up" || hb.status == "down") ≡ true)
      × (hb.monitor_id ≡ m.id)

  -- A heartbeat that is up stays so just for a body with the keyword.
  body_fits :
      (keyword : String) (body : Body) (hb : Heartbeat)
      → (keyword == "") ≡ false
      → hb.status ≡ "up"
      → let kept = with_body quoted keyword (limited body) hb in
        ((kept.status == "up") ≡ has_keyword keyword body)
        × ((kept.status == "up" || kept.status == "down") ≡ true)
        × (kept.monitor_id ≡ hb.monitor_id)
  body_fits keyword (whole text) hb asked up =
      elim (Bool-cases (contains_bytes (take 1048576 text) keyword)) [
        | inl there ↦ rw (asked, there, up) (refl, refl, refl)
        | inr lacking ↦ rw (asked, lacking) (refl, refl, refl)
      ]
  body_fits keyword (broken_off text e) hb asked up =
      elim (Bool-cases (leb 1048576 (length text))) [
        | inl long ↦ elim (Bool-cases (contains_bytes (take 1048576 text) keyword)) [
          | inl there ↦ rw (asked, long, there, up) (refl, refl, refl)
          | inr lacking ↦ rw (asked, long, lacking) (refl, refl, refl)
        ]
        | inr short ↦ rw (asked, short) (refl, refl, refl)
      ]

  blank_fits :
      (keyword : String) (body : Body) → (keyword == "") ≡ true → has_keyword keyword body ≡ true
  blank_fits keyword (whole text) blank = rw blank refl
  blank_fits keyword (broken_off text e) blank = rw blank refl

  judged-Fits : (now : Time) (m : Monitor) (x : Exchange) → Fits m x (judged quoted now m x)
  judged-Fits now m (no_request e) = (refl, refl, refl)
  judged-Fits now m (no_answer ms e) = (refl, refl, refl)
  judged-Fits now m (answered ms status body) =
      elim (Bool-cases (eqb_ℤ (ℤ.pos status) m.expected_status)) [
        | inr other ↦ rw other (refl, refl, refl)
        | inl same ↦ elim (Bool-cases (m.expected_keyword == "")) [
          | inl any ↦ rw (same, any) (rw (blank_fits m.expected_keyword body any) refl, refl, refl)
          | inr asked ↦ rw (same, asked) (body_fits m.expected_keyword body _ asked refl)
        ]
      ]

  -- An HTTP monitor is found up exactly when its request was answered with the status that it expects and,
  -- if it asks for a keyword, with a body whose first MiB can be read to its end, or to that of the body, and
  -- contains the bytes of the keyword; what comes after the first MiB does not count. Otherwise it is found
  -- down. The heartbeat is the monitor's, and its status one that the table of heartbeats takes.
  pub check_http_lem :
      (exchange : HttpRequest → Exchange) (now : Time) (m : Monitor)
      → let hb = check_http quoted exchange now m in
        ((hb.status == "up") ≡ is_expected m (exchange (request_of m)))
        × ((hb.status == "up" || hb.status == "down") ≡ true)
        × (hb.monitor_id ≡ m.id)
  unfolding check_http
  check_http_lem exchange now m = judged-Fits now m (exchange (request_of m))

-- ===== src/Usecase/Schedule/Clock.antt =====
-- Reading and writing the time of day, and what a schedule lets through.
use hivepulse.Prelude.{
  ℕ, ◌+◌, ◌*◌, ◌/◌, ◌%◌, ◌≤◌, ◌<◌, ◌==◌, ◌≡◌, ◌≢◌, ◌⊎◌, not, ◌↔◌, true, none, some, [], ◌∷◌, any,
  arith,
}
use hivepulse.Domain.{ok, is_ok, ScheduleRule}
use hivepulse.Usecase.Schedule.{
  LocalTime, parse_minutes, parse_clock, format_clock, day_name, is_within_schedule,
}

parse_minutes-digits :
    (m : ℕ) → m < 60 → parse_minutes ((b'0' + m / 10) ∷ (b'0' + m % 10) ∷ []) ≡ some m
unfolding parse_minutes
parse_minutes-digits m h = ground arith

-- What `Format("15:04")` writes, `Parse("15:04", …)` reads back as the minute of the day.
pub parse_clock-format_clock :
    (h m : ℕ) → h < 24 → m < 60 → parse_clock (format_clock h m) ≡ some (h * 60 + m)
unfolding parse_clock format_clock
parse_clock-format_clock h m hh hm = ground (arith, parse_minutes-digits m hm)

-- With two times that parse, a schedule lets a time through exactly when its day is listed and it lies
-- between them, the end excluded.
pub is_within_schedule_iff :
    (now : LocalTime) (s : ScheduleRule) (a b : ℕ)
    → now.hours < 24
    → now.minutes < 60
    → parse_clock s.start ≡ some a
    → parse_clock s.finish ≡ some b
    → (is_within_schedule now s ≡ ok true) ↔ (
        (any (λ d. d == day_name now.weekday) s.days ≡ true)
        × (a ≤ now.hours * 60 + now.minutes)
        × (now.hours * 60 + now.minutes < b))
unfolding is_within_schedule
is_within_schedule_iff now s a b hh hm ea eb =
    let e = parse_clock-format_clock now.hours now.minutes hh hm in
    (λ h. ground arith, λ h. ground arith)

-- A window whose end is not after its start, such as one over midnight, lets no time through.
pub overnight_never_within :
    (now : LocalTime) (s : ScheduleRule) (a b : ℕ)
    → parse_clock s.start ≡ some a
    → parse_clock s.finish ≡ some b
    → b ≤ a
    → is_within_schedule now s ≢ ok true
unfolding is_within_schedule
overnight_never_within now s a b ea eb h e = ground arith

-- A malformed time is an error on the days that are listed, and is not looked at on the others.
pub malformed_times :
    (now : LocalTime) (s : ScheduleRule)
    → (parse_clock s.start ≡ none) ⊎ (parse_clock s.finish ≡ none)
    → is_ok (is_within_schedule now s) ≡ not (any (λ d. d == day_name now.weekday) s.days)
unfolding is_within_schedule
malformed_times now s h = ground arith

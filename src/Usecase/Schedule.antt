-- ===== src/Usecase/Schedule.antt =====
-- `IsWithinSchedule` of internal/usecase/notification_usecase.go, and what it uses of package time:
-- the layout "15:04", read and written over code points.
pub mod Clock
use hivepulse.Prelude.{
  ℕ, ◌+◌, ◌-◌, ◌*◌, ◌/◌, ◌%◌, String, ◌==◌, Bool, true, false, not, ◌&&◌, Option, none, some, List,
  [], ◌∷◌, any, ltb, leb, eqb, if◌then◌else◌,
}
use hivepulse.Domain.{Error, Result, ok, err, other, ScheduleRule}

-- The part of a `time.Time` in its location that the schedule reads; Sunday is 0.
pub record LocalTime : Type 0 where
  pub weekday : ℕ
  pub hours : ℕ
  pub minutes : ℕ

abbrev pub is_digit : ℕ → Bool
is_digit c = leb b'0' c && leb c b'9'

-- The two digits of "04".
unfoldable pub parse_minutes : List ℕ → Option ℕ
parse_minutes (c ∷ d ∷ []) =
    let n : ℕ = (c - b'0') * 10 + (d - b'0') in
    if is_digit c && is_digit d && ltb n 60 then some n else none
parse_minutes _ = none

abbrev after_hours : ℕ → List ℕ → Option ℕ
after_hours h [] = none
after_hours h (c ∷ rest) =
    if eqb c b':' && ltb h 24
    then (elim (parse_minutes rest) [ none ↦ none | some m ↦ some (h * 60 + m) ])
    else none

-- `time.Parse("15:04", s)`, as the minutes since midnight: the hour has one digit or two.
unfoldable pub parse_clock : List ℕ → Option ℕ
parse_clock (c ∷ d ∷ rest) =
    if is_digit c
    then (if is_digit d
        then after_hours ((c - b'0') * 10 + (d - b'0')) rest
        else after_hours (c - b'0') (d ∷ rest))
    else none
parse_clock _ = none

abbrev digit : ℕ → ℕ
digit n = b'0' + n

-- `now.Format("15:04")`
unfoldable pub format_clock : ℕ → ℕ → List ℕ
format_clock h m = digit (h / 10) ∷ digit (h % 10) ∷ b':' ∷ digit (m / 10) ∷ digit (m % 10) ∷ []

-- `strings.ToLower(now.Weekday().String()[:3])`
unfoldable pub day_name : ℕ → String
day_name d =
    if eqb d 0
    then "sun"
    else if eqb d 1
    then "mon"
    else if eqb d 2
    then "tue"
    else if eqb d 3
    then "wed"
    else if eqb d 4
    then "thu"
    else if eqb d 5
    then "fri"
    else "sat"

abbrev compare_clocks : Option ℕ → Option ℕ → Option ℕ → Result Bool
compare_clocks none finish current = err (other "invalid start time")
compare_clocks (some s) none current = err (other "invalid end time")
compare_clocks (some s) (some e) none = err (other "invalid current time")
compare_clocks (some s) (some e) (some t) = ok (not (ltb t s) && ltb t e)

-- `IsWithinSchedule`
unfoldable pub is_within_schedule : LocalTime → ScheduleRule → Result Bool
is_within_schedule now s =
    if not (any (λ d. d == day_name now.weekday) s.days)
    then ok false
    else compare_clocks (parse_clock s.start) (parse_clock s.finish)
        (parse_clock (format_clock now.hours now.minutes))

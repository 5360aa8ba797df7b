-- ===== src/Infra/Aggregator.antt =====
-- internal/infrastructure/aggregator.go: heartbeats are rolled up into buckets of an hour, a minute and
-- a day (migrations 6, 7 and 18), and old rows are deleted. `date_trunc` cuts in UTC.
pub mod Buckets
use hivepulse.Prelude.{
  ℕ, zero, suc, ◌+◌, ◌-◌, ◌*◌, ◌/◌, String, ◌==◌, Bool, true, false, not, ◌&&◌, Option, none, some,
  List, [], ◌∷◌, length, select, find, eqb, leb, ltb, if◌then◌else◌,
}
use hivepulse.Domain.{Error, Result, ok, err, other, Time, minute, hour, day, Heartbeat, BucketRow}
use hivepulse.World.{Db}

-- `date_trunc`, to units of a length.
abbrev pub trunc : ℕ → Time → Time
trunc unit t = t / unit * unit

abbrev pub sum_ping : List Heartbeat → ℕ
sum_ping [] = 0
sum_ping (h ∷ hs) = h.ping_ms + sum_ping hs

-- `AVG(…)::int`, which rounds to the nearest integer, halves up; it is 0 without rows.
abbrev pub average : ℕ → ℕ → ℕ
average sum zero = 0
average sum (suc n) = (2 * sum + suc n) / (2 * suc n)

abbrev pub in_bucket : ℕ → String → Time → Heartbeat → Bool
in_bucket unit id t h = h.monitor_id == id && eqb (trunc unit h.checked_at) t

-- The row of a group: the heartbeats of a monitor whose times are cut to `t`.
unfoldable pub bucket_of : ℕ → List Heartbeat → String → Time → BucketRow
bucket_of unit hs id t =
    let rows = select (in_bucket unit id t) hs in
    record {
      monitor_id = id;
      time = t;
      up_count = length (select (λ h. h.status == "up") rows);
      total_count = length rows;
      avg_ping_ms = average (sum_ping rows) (length rows);
    }

abbrev pub has_key : String → Time → BucketRow → Bool
has_key id t b = b.monitor_id == id && eqb b.time t

-- ON CONFLICT … DO UPDATE: the row takes the place of the row with its key.
unfoldable pub put_row : BucketRow → List BucketRow → List BucketRow
put_row b table = b ∷ select (λ x. not (has_key b.monitor_id b.time x)) table

-- The groups of `rows` are put in, each counted over `recent`.
unfoldable pub put_groups : ℕ → List Heartbeat → List Heartbeat → List BucketRow → List BucketRow
put_groups unit recent [] table = table
put_groups unit recent (h ∷ hs) table =
    put_row (bucket_of unit recent h.monitor_id (trunc unit h.checked_at))
      (put_groups unit recent hs table)

-- `checked_at >= NOW() - INTERVAL …`
abbrev pub recent_rows : ℕ → Time → List Heartbeat → List Heartbeat
recent_rows window now hs = select (λ h. leb (now - window) h.checked_at) hs

-- INSERT … SELECT … GROUP BY … ON CONFLICT
unfoldable pub upsert : ℕ → ℕ → Time → List Heartbeat → List BucketRow → List BucketRow
upsert unit window now hs table =
    put_groups unit (recent_rows window now hs) (recent_rows window now hs) table

abbrev pub kept_buckets : ℕ → Time → List BucketRow → List BucketRow
kept_buckets age now table = select (λ b. not (ltb b.time (now - age))) table

-- The statements of the transaction.
unfoldable pub roll_up : Time → Db → Db
roll_up now t = record t {
  heartbeats = select (λ h. not (ltb h.checked_at (now - 30 * day))) t.heartbeats;
  hourly = kept_buckets (90 * day) now (upsert hour (2 * hour) now t.heartbeats t.hourly);
  minutely = kept_buckets (7 * day) now (upsert minute (10 * minute) now t.heartbeats t.minutely);
  daily = kept_buckets (90 * day) now (upsert day (2 * day) now t.heartbeats t.daily);
}

-- `Aggregator.Tick`: the transaction, which a statement that fails rolls back, and whether the reminders
-- follow.
unfoldable pub tick : Option String → Time → Db → Result (Unit {0}) × Db × Bool
tick (some message) now t = (err (other message), t, false)
tick none now t = (ok tt, roll_up now t, true)

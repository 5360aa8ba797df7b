-- ===== src/Infra/Aggregator/Buckets.antt =====
-- What a bucket holds after a roll-up.
use hivepulse.Prelude.{
  ℕ, ◌-◌, ◌*◌, ◌≤◌, ◌<◌, String, ◌==◌, eq_iff, ◌≡◌, refl, ap, ◌∙◌, inl, inr, arith, Bool,
  Bool-cases, true, not, ◌&&◌, none, some, List, [], ◌∷◌, length, select, any, find, eqb, leb,
  if◌then◌else◌,
}
use hivepulse.Domain.{Time, hour, day, Heartbeat, BucketRow}
use hivepulse.World.{Db}
use hivepulse.Infra.Aggregator.{
  average, sum_ping, trunc, in_bucket, bucket_of, has_key, put_row, put_groups, recent_rows, upsert,
  kept_buckets, roll_up,
}

find-select :
    (id id' : String) (t t' : Time) (table : List BucketRow)
    → find (has_key id t) (select (λ x. not (has_key id' t' x)) table)
      ≡ (if id' == id && eqb t' t then none else find (has_key id t) table)
find-select id id' t t' [] = ground arith
find-select id id' t t' (b ∷ table) = ground (
  arith,
  find-select id id' t t' table,
  eq_iff b.monitor_id id,
  eq_iff b.monitor_id id',
  eq_iff id' id,
)

find-put_row :
    (id : String) (t : Time) (b : BucketRow) (table : List BucketRow)
    → find (has_key id t) (put_row b table)
      ≡ (if has_key id t b then some b else find (has_key id t) table)
unfolding put_row
find-put_row id t b table = ground (arith, find-select id b.monitor_id t b.time table)

key_of :
    (unit : ℕ) (recent : List Heartbeat) (id id' : String) (t t' : Time)
    → has_key id t (bucket_of unit recent id' t') ≡ (id' == id && eqb t' t)
unfolding bucket_of
key_of unit recent id id' t t' = refl

same_bucket :
    (unit : ℕ) (recent : List Heartbeat) (id id' : String) (t t' : Time)
    → (id' == id && eqb t' t) ≡ true
    → bucket_of unit recent id' t' ≡ bucket_of unit recent id t
same_bucket unit recent id id' t t' same = ground (arith, eq_iff id' id)

find-put_groups :
    (unit : ℕ) (recent rows : List Heartbeat) (id : String) (t : Time) (table : List BucketRow)
    → find (has_key id t) (put_groups unit recent rows table) ≡ (
        if any (in_bucket unit id t) rows
        then some (bucket_of unit recent id t)
        else find (has_key id t) table)
unfolding put_groups
find-put_groups unit recent [] id t table = refl
find-put_groups unit recent (h ∷ hs) id t table =
    let t' = trunc unit h.checked_at in
    elim (Bool-cases (in_bucket unit id t h)) [
      | inl same ↦ ground (
        arith,
        find-put_row id t (bucket_of unit recent h.monitor_id t') (put_groups unit recent hs table),
        key_of unit recent id h.monitor_id t t',
        same_bucket unit recent id h.monitor_id t t' same,
      )
      | inr other_one ↦ ground (
        arith,
        find-put_row id t (bucket_of unit recent h.monitor_id t') (put_groups unit recent hs table),
        key_of unit recent id h.monitor_id t t',
        find-put_groups unit recent hs id t table,
      )
    ]

find-kept :
    (age now : ℕ) (id : String) (t : Time) (table : List BucketRow)
    → now - age ≤ t
    → find (has_key id t) (kept_buckets age now table) ≡ find (has_key id t) table
find-kept age now id t [] young = refl
find-kept age now id t (b ∷ table) young = ground (arith, find-kept age now id t table young)

trunc-le : (t : Time) → trunc hour t ≤ t
trunc-le t = omega arith

select_all :
    (p : Heartbeat → Bool) (id : String) (t : Time) (hs : List Heartbeat)
    → ((h : Heartbeat) → in_bucket hour id t h ≡ true → p h ≡ true)
    → select (in_bucket hour id t) (select p hs) ≡ select (in_bucket hour id t) hs
select_all p id t [] all_in = refl
select_all p id t (h ∷ hs) all_in = ground (arith, select_all p id t hs all_in, all_in h)

any_recent :
    (p : Heartbeat → Bool) (id : String) (t : Time) (hs : List Heartbeat)
    → ((h : Heartbeat) → in_bucket hour id t h ≡ true → p h ≡ true)
    → any (in_bucket hour id t) (select p hs) ≡ any (in_bucket hour id t) hs
any_recent p id t [] all_in = refl
any_recent p id t (h ∷ hs) all_in = ground (arith, any_recent p id t hs all_in, all_in h)

fewer :
    (p q : Heartbeat → Bool) (hs : List Heartbeat)
    → length (select p (select q hs)) ≤ length (select p hs)
fewer p q [] = omega arith
fewer p q (x ∷ hs) = ground (arith, fewer p q hs)

some_left :
    (p q : Heartbeat → Bool) (hs : List Heartbeat)
    → any (λ h. p h && not (q h)) hs ≡ true
    → length (select p (select q hs)) < length (select p hs)
some_left p q [] h = cc
some_left p q (x ∷ hs) h = ground (arith, some_left p q hs, fewer p q hs)

in_window :
    (now : ℕ) (id : String) (t : Time)
    → now - 2 * hour ≤ t
    → (h : Heartbeat) → in_bucket hour id t h ≡ true
    → leb (now - 2 * hour) h.checked_at ≡ true
in_window now id t inside h here = ground (arith, trunc-le h.checked_at)

-- The bucket of an hour after a roll-up, if its time is less than 90 days old.
hourly_of :
    (now : Time) (id : String) (t : Time) (tables : Db)
    → now - 90 * day ≤ t
    → find (has_key id t) (roll_up now tables).hourly ≡ (
        if any (in_bucket hour id t) (recent_rows (2 * hour) now tables.heartbeats)
        then some (bucket_of hour (recent_rows (2 * hour) now tables.heartbeats) id t)
        else find (has_key id t) tables.hourly)
unfolding roll_up upsert
hourly_of now id t tables young =
    find-kept (90 * day) now id t (upsert hour (2 * hour) now tables.heartbeats tables.hourly) young
    ∙ find-put_groups hour (recent_rows (2 * hour) now tables.heartbeats)
        (recent_rows (2 * hour) now tables.heartbeats) id t tables.hourly

same_rows :
    (hs hs' : List Heartbeat) (id : String) (t : Time)
    → select (in_bucket hour id t) hs ≡ select (in_bucket hour id t) hs'
    → bucket_of hour hs id t ≡ bucket_of hour hs' id t
unfolding bucket_of
same_rows hs hs' id t e =
    ap
      (λ (rows : List Heartbeat). record {
        monitor_id = id;
        time = t;
        up_count = length (select (λ h. h.status == "up") rows);
        total_count = length rows;
        avg_ping_ms = average (sum_ping rows) (length rows);
      })
      e

-- An hour that begins within the last two hours, and in which a monitor has a heartbeat, is rolled up
-- exactly: its bucket counts and averages all the heartbeats of the monitor in that hour.
pub roll_up-exact :
    (now : Time) (id : String) (t : Time) (tables : Db)
    → now - 2 * hour ≤ t
    → any (in_bucket hour id t) tables.heartbeats ≡ true
    → find (has_key id t) (roll_up now tables).hourly ≡ some (bucket_of hour tables.heartbeats id t)
roll_up-exact now id t tables inside some_row =
    let p : (Heartbeat → Bool) = λ h. leb (now - 2 * hour) h.checked_at in
    let all_in = in_window now id t inside in
    ground (
      arith,
      hourly_of now id t tables (omega arith),
      any_recent p id t tables.heartbeats all_in,
      same_rows (recent_rows (2 * hour) now tables.heartbeats) tables.heartbeats id t
          (select_all p id t tables.heartbeats all_in),
    )

total_less :
    (now : Time) (id : String) (t : Time) (hs : List Heartbeat)
    → any (λ h. in_bucket hour id t h && not (leb (now - 2 * hour) h.checked_at)) hs ≡ true
    → (bucket_of hour (recent_rows (2 * hour) now hs) id t).total_count
      < (bucket_of hour hs id t).total_count
unfolding bucket_of
total_less now id t hs outside =
    some_left (in_bucket hour id t) (λ h. leb (now - 2 * hour) h.checked_at) hs outside

-- If a monitor has heartbeats of an hour on both sides of the edge of the window, two hours ago, the
-- roll-up leaves that hour a bucket which counts fewer heartbeats than there are, whatever bucket was
-- there before.
pub roll_up_undercounts :
    (now : Time) (id : String) (t : Time) (tables : Db)
    → now - 90 * day ≤ t
    → any (in_bucket hour id t) (recent_rows (2 * hour) now tables.heartbeats) ≡ true
    → any (λ h. in_bucket hour id t h && not (leb (now - 2 * hour) h.checked_at)) tables.heartbeats
      ≡ true
    → (b : BucketRow) × (find (has_key id t) (roll_up now tables).hourly ≡ some b)
      × (b.total_count < (bucket_of hour tables.heartbeats id t).total_count)
roll_up_undercounts now id t tables young inside outside = (
  bucket_of hour (recent_rows (2 * hour) now tables.heartbeats) id t,
  ground (arith, hourly_of now id t tables young),
  total_less now id t tables.heartbeats outside,
)

-- ===== src/Usecase/Pages/Reads.antt =====
-- Showing a page changes no table.
use hivepulse.Prelude.{◌≡◌, refl, ◌∙◌, ℕ, ◌-◌, ◌*◌, String, Option, none, some, List, [], ◌∷◌}
use hivepulse.Domain.{Result, ok, err, Time, hour, Floats, Monitor, StatsBucket}
use hivepulse.World.{World, fetch-db}
use hivepulse.Repo.Heartbeats
use hivepulse.Repo.Heartbeats.{count_since, uptime_of, count_up}
use hivepulse.Repo.Incidents
use hivepulse.Repo.Stats
use hivepulse.Repo.Stats.{series}
use hivepulse.Repo.Monitors
use hivepulse.Repo.Pages
use hivepulse.Usecase.Stats.{
  Source, minutely, hourly, daily, read_source, range_of, with_buckets, stats_in, get_stats,
}
use hivepulse.Usecase.Pages.Public.{monitors_tagged, rows_of}

count_up-db :
    (id : String) (since : Time) (r : Result ℕ) (w : World) → (count_up id since r w).1.db ≡ w.db
count_up-db id since (err e) w = refl
count_up-db id since (ok n) w = fetch-db (uptime_of id since n) w

get_uptime-db :
    (id : String) (since : Time) (w : World) → (Heartbeats.get_uptime id since w).1.db ≡ w.db
unfolding Heartbeats.get_uptime
get_uptime-db id since w = count_up-db id since _ _ ∙ fetch-db (count_since id since) w

read_source-db :
    (s : Source) (id : String) (since : Time) (w : World) → (read_source s id since w).1.db ≡ w.db
unfolding Stats.get_minutely Stats.get_hourly Stats.get_daily
read_source-db minutely id since w = fetch-db (λ d. ok (series id since d.minutely)) w
read_source-db hourly id since w = fetch-db (λ d. ok (series id since d.hourly)) w
read_source-db daily id since w = fetch-db (λ d. ok (series id since d.daily)) w

module _ (floats : Floats) where
  with_buckets-db :
      (id : String) (since : Time) (r : Result (List StatsBucket)) (w : World)
      → (with_buckets floats id since r w).1.db ≡ w.db
  unfolding Incidents.find_by_monitor_and_time_range
  with_buckets-db id since (err e) w = refl
  with_buckets-db id since (ok bs) w = fetch-db (Incidents.in_range id since) w

  stats_in-db :
      (id : String) (s : Option (Source × ℕ)) (w : World) → (stats_in floats id s w).1.db ≡ w.db
  stats_in-db id none w = refl
  stats_in-db id (some (source, back)) w =
      with_buckets-db id (w.now - back) _ _ ∙ read_source-db source id (w.now - back) w

  get_stats-db : (id range : String) (w : World) → (get_stats floats id range w).1.db ≡ w.db
  unfolding get_stats
  get_stats-db id range w = stats_in-db id (range_of range) w

  pub rows_of-db : (ms : List Monitor) (w : World) → (rows_of floats ms w).1.db ≡ w.db
  rows_of-db [] w = refl
  rows_of-db (m ∷ ms) w =
      rows_of-db ms _ ∙ get_stats-db m.id "90d" _ ∙ get_uptime-db m.id (w.now - 24 * hour) w

pub monitors_tagged-db : (tags : List String) (w : World) → (monitors_tagged tags w).1.db ≡ w.db
unfolding Monitors.find_by_tag_ids
monitors_tagged-db [] w = refl
monitors_tagged-db (t ∷ ts) w = fetch-db (Monitors.with_tags (t ∷ ts)) w

pub get_tag_ids-db : (id : String) (w : World) → (Pages.get_tag_ids id w).1.db ≡ w.db
unfolding Pages.get_tag_ids
get_tag_ids-db id w = fetch-db (Pages.tags_on id) w

-- ===== src/Usecase/Pages/Calm.antt =====
-- Showing a page changes nothing at all, if the database works.
use hivepulse.Prelude.{◌≡◌, refl, ap, ◌∙◌, ℕ, ◌-◌, ◌*◌, String, Option, none, some, List, [], ◌∷◌}
use hivepulse.Domain.{Result, ok, err, Time, hour, Floats, Monitor, StatsBucket}
use hivepulse.World.{Db, World, fetch, fetch_calm}
use hivepulse.Repo.Heartbeats
use hivepulse.Repo.Heartbeats.{count_since, uptime_of, count_up}
use hivepulse.Repo.Incidents
use hivepulse.Repo.Stats
use hivepulse.Repo.Stats.{series}
use hivepulse.Repo.Monitors
use hivepulse.Repo.Pages
use hivepulse.Usecase.Stats.{
  Source, minutely, hourly, daily, read_source, range_of, with_buckets, stats_in, get_stats,
}
use hivepulse.Usecase.Pages.Public.{monitors_tagged, rows_of}

-- A world without faults, and what an operation that left it alone gives.
pub record Still (w v : World) : Type 0 where
  pub same : v ≡ w
  pub calm : v.faults ≡ []

stays : (w v : World) → w.faults ≡ [] → v ≡ w → Still w v
stays w v calm e = record { same = e; calm = ap (λ (x : World). x.faults) e ∙ calm }

pub then-Still : (w v u : World) → Still w v → Still v u → Still w u
then-Still w v u a b = record { same = b.same ∙ a.same; calm = b.calm }

pub fetch-Still {ℓ} :
    {A : Type ℓ} (q : Db → Result A) (w : World) → w.faults ≡ [] → Still w (fetch q w).1
fetch-Still q w calm = stays w (fetch q w).1 calm (ap (λ r. r.1) (fetch_calm q w calm))

count_up-Still :
    (id : String) (since : Time) (r : Result ℕ) (w : World)
    → w.faults ≡ []
    → Still w (count_up id since r w).1
count_up-Still id since (err e) w calm = stays w w calm refl
count_up-Still id since (ok n) w calm = fetch-Still (uptime_of id since n) w calm

get_uptime-Still :
    (id : String) (since : Time) (w : World)
    → w.faults ≡ []
    → Still w (Heartbeats.get_uptime id since w).1
unfolding Heartbeats.get_uptime
get_uptime-Still id since w calm =
    let first = fetch-Still (count_since id since) w calm in
    then-Still _ _ _ first (count_up-Still id since _ _ first.calm)

read_source-Still :
    (s : Source) (id : String) (since : Time) (w : World)
    → w.faults ≡ []
    → Still w (read_source s id since w).1
unfolding Stats.get_minutely Stats.get_hourly Stats.get_daily
read_source-Still minutely id since w calm =
    fetch-Still (λ d. ok (series id since d.minutely)) w calm
read_source-Still hourly id since w calm = fetch-Still (λ d. ok (series id since d.hourly)) w calm
read_source-Still daily id since w calm = fetch-Still (λ d. ok (series id since d.daily)) w calm

module _ (floats : Floats) where
  with_buckets-Still :
      (id : String) (since : Time) (r : Result (List StatsBucket)) (w : World)
      → w.faults ≡ []
      → Still w (with_buckets floats id since r w).1
  unfolding Incidents.find_by_monitor_and_time_range
  with_buckets-Still id since (err e) w calm = stays w w calm refl
  with_buckets-Still id since (ok bs) w calm = fetch-Still (Incidents.in_range id since) w calm

  stats_in-Still :
      (id : String) (s : Option (Source × ℕ)) (w : World)
      → w.faults ≡ []
      → Still w (stats_in floats id s w).1
  stats_in-Still id none w calm = stays w w calm refl
  stats_in-Still id (some (source, back)) w calm =
      let first = read_source-Still source id (w.now - back) w calm in
      then-Still _ _ _ first (with_buckets-Still id (w.now - back) _ _ first.calm)

  get_stats-Still :
      (id range : String) (w : World) → w.faults ≡ [] → Still w (get_stats floats id range w).1
  unfolding get_stats
  get_stats-Still id range w calm = stats_in-Still id (range_of range) w calm

  pub rows_of-Still :
      (ms : List Monitor) (w : World) → w.faults ≡ [] → Still w (rows_of floats ms w).1
  rows_of-Still [] w calm = stays w w calm refl
  rows_of-Still (m ∷ ms) w calm =
      let first = get_uptime-Still m.id (w.now - 24 * hour) w calm in
      let second = get_stats-Still m.id "90d" _ first.calm in
      then-Still _ _ _ first (then-Still _ _ _ second (rows_of-Still ms _ second.calm))

pub monitors_tagged-Still :
    (tags : List String) (w : World) → w.faults ≡ [] → Still w (monitors_tagged tags w).1
unfolding Monitors.find_by_tag_ids
monitors_tagged-Still [] w calm = stays w w calm refl
monitors_tagged-Still (t ∷ ts) w calm = fetch-Still (Monitors.with_tags (t ∷ ts)) w calm

pub get_tag_ids-Still :
    (id : String) (w : World) → w.faults ≡ [] → Still w (Pages.get_tag_ids id w).1
unfolding Pages.get_tag_ids
get_tag_ids-Still id w calm = fetch-Still (Pages.tags_on id) w calm

-- ===== src/Tests/Shown.antt =====
-- A status page with one tagged monitor that is down, and one that is not on the page.
use hivepulse.Prelude.{map, List, ℕ, ◌≡◌, refl, true, none, [], ◌∷◌}
use hivepulse.Domain.{ok, StatusPage, Floats, PublicStatusPageData}
use hivepulse.World.{World}
use hivepulse.Repo.Pages
use hivepulse.Repo.Monitors
use hivepulse.Repo.Heartbeats
use hivepulse.Repo.Stats
use hivepulse.Repo.Stats.{series}
use hivepulse.Repo.Incidents
use hivepulse.Repo.Incidents.{listing, find_active, find_resolved}
use hivepulse.Usecase.Stats.{get_stats, range_of}
use hivepulse.Usecase.Slug.{compute_overall_status}
use hivepulse.Repo.Pages.Slugs.{IsKeyed}
use hivepulse.Usecase.Pages.{StatusPageRequest}
use hivepulse.Tasks.{weave}
use hivepulse.Usecase.Pages.Keyed.{PageRequest, creates, updates, deletes}
use hivepulse.Usecase.Pages.Overlap.{request_task, overlapping_requests-IsKeyed}
use hivepulse.Usecase.Pages.Public.{get_public, page_found}
use hivepulse.Usecase.Pages.Chosen.{Chosen, get_public-Chosen}
use hivepulse.Usecase.Pages.Private.{IsPrivate, get_public-IsPrivate}
use hivepulse.Tests.Data.{site, outage, tables, world_of, start}

abbrev front : StatusPage
front = record {
  id = "p1";
  slug = "front";
  title = "Front";
  description = "";
  logo_url = "";
  accent_color = "#F5A623";
  custom_domain = "";
  tag_ids = [];
  created_at = 1;
  updated_at = 1;
}

abbrev back : StatusPage
back = record front { id = "p2"; slug = "back" }

abbrev pages : World
pages = world_of (record (tables []) {
  monitors = site ∷ record site { id = "m2" } ∷ [];
  incidents = outage ∷ record outage { id = 2; monitor_id = "m2" } ∷ [];
  pages = front ∷ back ∷ [];
  page_tags = record { owner_id = "p1"; tag_id = "g1" } ∷ [];
  monitor_tags = record { owner_id = "m1"; tag_id = "g1" } ∷ [];
})

pages-IsKeyed : IsKeyed pages.db
pages-IsKeyed = record { ids = refl; slugs = refl }

abbrev rename : StatusPageRequest
rename = record {
  title = "Front";
  slug = "back";
  description = "";
  logo_url = "";
  accent_color = "";
  custom_domain = "";
  tag_ids = "g1" ∷ [];
}

abbrev new_slug : StatusPageRequest
new_slug = record rename { slug = "new" }

-- A page takes a slug while another is made with it.
abbrev rivals : List PageRequest
rivals = updates "p1" new_slug ∷ creates "front-a1b2" new_slug ∷ deletes "p2" ∷ []

-- Both find the slug free before either writes.
abbrev taking_turns : List ℕ
taking_turns = 0 ∷ 1 ∷ 0 ∷ 2 ∷ 1 ∷ 0 ∷ 0 ∷ 2 ∷ 1 ∷ 0 ∷ []

overlapping_requests-IsKeyed_example :
    IsKeyed (weave taking_turns (map request_task rivals) pages).1.db
overlapping_requests-IsKeyed_example =
    overlapping_requests-IsKeyed rivals taking_turns pages pages-IsKeyed

-- Pairs of numbers in place of float64.
abbrev pairs : Floats
pairs = record {
  Float = ℕ × ℕ;
  nought = (0, 1);
  ratio = λ a b. (a, b);
  to_percent = λ x. x;
  of_percent = λ x. x;
}

abbrev front_shown : PublicStatusPageData pairs
front_shown = record {
  title = "Front";
  description = "";
  accent_color = "#F5A623";
  logo_url = "";
  overall_status = "outage";
  monitors =
      record {
        id = "m1";
        name = "site";
        check_type = "http";
        last_status = "down";
        uptime_24h = (0, 1);
        uptime_90d = (0, 1);
        daily_buckets = [];
      }
      ∷ [];
  active_incidents =
      record {
        id = 1;
        monitor_name = "site";
        started_at = start;
        resolved_at = none;
        duration_s = 0;
        error_msg = "timeout";
      }
      ∷ [];
  recent_incidents = [];
}

front_is_shown : (get_public pairs (λ name q. true) "front" pages).0 ≡ ok front_shown
unfolding get_public page_found compute_overall_status Pages.find_by_slug Pages.get_tag_ids
    Monitors.find_by_tag_ids Heartbeats.get_uptime get_stats range_of Stats.get_daily series
    Incidents.find_by_monitor_and_time_range find_active find_resolved listing
front_is_shown = refl

get_public-IsPrivate_example : IsPrivate pairs (λ name q. true) pages.db "front" front_shown
get_public-IsPrivate_example =
    get_public-IsPrivate pairs (λ name q. true) "front" pages front_shown front_is_shown

get_public-Chosen_example :
    (page : PublicStatusPageData pairs) × ((get_public pairs (λ name q. true) "front" pages).0
      ≡ ok page)
    × Chosen pairs (λ name q. true) pages.db "p1" page
get_public-Chosen_example = get_public-Chosen pairs (λ name q. true) "front" front pages refl refl

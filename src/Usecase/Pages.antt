-- ===== src/Usecase/Pages.antt =====
-- internal/usecase/status_page_usecase.go.
pub mod Keyed
pub mod Public
pub mod Reveals
pub mod Reads
pub mod Calm
pub mod Chosen
pub mod Private
pub mod Task
pub mod Overlap
use Prim.Native.String.{◌++◌}
use hivepulse.Prelude.{
  ℕ, ◌-◌, ◌*◌, ◌/◌, zero, suc, String, ◌==◌, Bool, true, false, not, ◌&&◌, Option, none, some, List,
  [], ◌∷◌, any, select, take, trim_space, ℤ, if◌then◌else◌,
}
use hivepulse.Domain.{
  Error, Result, ok, err, validation, not_found, Time, second, hour, Monitor, Incident, StatusPage,
  StatsBucket, Floats, StatsResponse, DailyBucket, PublicMonitorRow, PublicIncident,
  PublicStatusPageData,
}
use hivepulse.World.{World, State, Action}
use hivepulse.Repo.Pages
use hivepulse.Repo.Pages.{Clauses}
use hivepulse.Repo.Monitors
use hivepulse.Repo.Heartbeats
use hivepulse.Repo.Incidents
use hivepulse.Usecase.Stats.{get_stats}
use hivepulse.Usecase.Slug.{compute_overall_status}

pub record StatusPageRequest : Type 0 where
  pub title : String
  pub slug : String
  pub description : String
  pub logo_url : String
  pub accent_color : String
  pub custom_domain : String
  pub tag_ids : List String

abbrev pub slug_taken : String → Error
slug_taken slug = validation ("slug '" ++ slug ++ "' is already taken")

abbrev pub or_generated : String → String → String
or_generated slug generated = if slug == "" then generated else slug

abbrev pub page_of_request : StatusPageRequest → String → StatusPage
page_of_request req slug = record {
  id = "";
  slug = slug;
  title = req.title;
  description = req.description;
  logo_url = req.logo_url;
  accent_color = if req.accent_color == "" then "#F5A623" else req.accent_color;
  custom_domain = req.custom_domain;
  tag_ids = [];
  created_at = 0;
  updated_at = 0;
}

-- `if len(req.TagIDs) > 0`; the error of `SetTags` is dropped.
abbrev pub tag_if_any : String → List String → World → World
tag_if_any id [] w = w
tag_if_any id (t ∷ ts) w = (Pages.set_tags id (t ∷ ts) w).1

abbrev pub tagged_page : List String → Result StatusPage → Action StatusPage
tagged_page tags (err e) w = (err e, w)
tagged_page tags (ok sp) w = (ok (record sp { tag_ids = tags }), tag_if_any sp.id tags w)

abbrev pub create_unless : Bool → StatusPageRequest → String → Action StatusPage
create_unless true req slug w = (err (slug_taken slug), w)
create_unless false req slug w =
    let (r, w1) = Pages.create (page_of_request req slug) w in tagged_page req.tag_ids r w1

-- `StatusPageUsecase.Create`; `generated` is what `generateSlug` gives for the title.
unfoldable pub create_page : String → StatusPageRequest → Action StatusPage
create_page generated req w =
    if trim_space req.title == ""
    then (err (validation "title is required"), w)
    else (let slug = or_generated req.slug generated in
        let (exists, w1) = Pages.slug_exists slug "" w in create_unless exists req slug w1)

abbrev pub edited : Time → StatusPageRequest → String → StatusPage → StatusPage
edited now req slug sp = record sp {
  slug = slug;
  title = req.title;
  description = req.description;
  logo_url = req.logo_url;
  accent_color = req.accent_color;
  custom_domain = req.custom_domain;
  tag_ids = req.tag_ids;
  updated_at = now;
}

abbrev pub after_update : StatusPage → Result (Unit {0}) → Action StatusPage
after_update sp (err e) w = (err e, w)
after_update sp (ok u) w = (ok sp, (Pages.set_tags sp.id sp.tag_ids w).1)

abbrev pub write_edited : StatusPageRequest → String → StatusPage → Action StatusPage
write_edited req slug sp w =
    let (r, w1) = Pages.update_page (edited w.now req slug sp) w in
    after_update (edited w.now req slug sp) r w1

abbrev pub edit_unless : Bool → StatusPageRequest → StatusPage → Action StatusPage
edit_unless true req sp w = (err (slug_taken req.slug), w)
edit_unless false req sp w = write_edited req req.slug sp w

abbrev pub edit_found : String → StatusPageRequest → Result StatusPage → Action StatusPage
edit_found id req (err e) w = (err not_found, w)
edit_found id req (ok sp) w =
    if not (req.slug == "") && not (req.slug == sp.slug)
    then (let (exists, w1) = Pages.slug_exists req.slug id w in edit_unless exists req sp w1)
    else write_edited req sp.slug sp w

-- `StatusPageUsecase.Update`
unfoldable pub update_page : String → StatusPageRequest → Action StatusPage
update_page id req w = let (r, w1) = Pages.find_by_id id w in edit_found id req r w1

abbrev pub delete_found : String → Result StatusPage → Action (Unit {0})
delete_found id (err e) w = (err not_found, w)
delete_found id (ok sp) w = Pages.delete id w

-- `StatusPageUsecase.Delete`
unfoldable pub delete_page : String → Action (Unit {0})
delete_page id w = let (r, w1) = Pages.find_by_id id w in delete_found id r w1

-- An error leaves nil.
abbrev pub or_empty {ℓ} : {A : Type ℓ} → Result (List A) → List A
or_empty (ok l) = l
or_empty (err e) = []

abbrev get_found : String → Result StatusPage → Action StatusPage
get_found id (err e) w = (err not_found, w)
get_found id (ok sp) w =
    let (tags, w1) = Pages.get_tag_ids id w in (ok (record sp { tag_ids = or_empty tags }), w1)

-- `StatusPageUsecase.GetByID`
unfoldable pub get_page : String → Action StatusPage
get_page id w = let (r, w1) = Pages.find_by_id id w in get_found id r w1

abbrev tag_pages : List StatusPage → State (List StatusPage)
tag_pages [] w = ([], w)
tag_pages (sp ∷ sps) w =
    let (tags, w1) = Pages.get_tag_ids sp.id w in
    let (rest, w2) = tag_pages sps w1 in (record sp { tag_ids = or_empty tags } ∷ rest, w2)

abbrev listed_pages : Result (List StatusPage × ℕ) → Action (List StatusPage × ℕ)
listed_pages (err e) w = (err e, w)
listed_pages (ok (pages, total)) w =
    let (tagged, w1) = tag_pages pages w in (ok (tagged, total), w1)

-- `StatusPageUsecase.List`
unfoldable pub list_pages : Clauses → ℤ → ℤ → Action (List StatusPage × ℕ)
list_pages gorm page limit w = let (r, w1) = Pages.list gorm page limit w in listed_pages r w1

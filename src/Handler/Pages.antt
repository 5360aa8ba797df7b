-- ===== src/Handler/Pages.antt =====
-- internal/adapter/handler/status_page_handler.go. A body is `none` if gin cannot parse it. The times in a
-- response are not formatted.
use hivepulse.Prelude.{ℕ, String, ◌==◌, Bool, Option, none, some, List, map, ℤ, if◌then◌else◌}
use hivepulse.Domain.{Error, not_found, Time, StatusPage, Floats, PublicStatusPageData}
use hivepulse.World.{State}
use hivepulse.Usecase.Pages.{
  StatusPageRequest, create_page, update_page, delete_page, get_page, list_pages,
}
use hivepulse.Repo.Pages.{Clauses}
use hivepulse.Usecase.Pages.Public.{get_public}
use hivepulse.Handler.Replies.{status_of, reply, always, or_number}

pub record StatusPageResponse : Type 0 where
  pub id : String
  pub slug : String
  pub title : String
  pub description : String
  pub logo_url : String
  pub accent_color : String
  pub custom_domain : String
  pub tag_ids : List String
  pub created_at : Time

-- `toStatusPageResponse`
unfoldable pub to_status_page_response : StatusPage → StatusPageResponse
to_status_page_response sp = record {
  id = sp.id;
  slug = sp.slug;
  title = sp.title;
  description = sp.description;
  logo_url = sp.logo_url;
  accent_color = sp.accent_color;
  custom_domain = sp.custom_domain;
  tag_ids = sp.tag_ids;
  created_at = sp.created_at;
}

pub record PageListing : Type 0 where
  pub rows : List StatusPageResponse
  pub total : ℕ
  pub page : ℤ
  pub limit : ℤ

unfoldable pub listing_of : ℤ → ℤ → List StatusPage × ℕ → PageListing
unfolding to_status_page_response
listing_of page limit (sps, total) = record {
  rows = map to_status_page_response sps;
  total = total;
  page = page;
  limit = limit;
}

-- `StatusPageHandler.List`: page and limit go to the database as they come.
unfoldable pub list : Clauses → Option ℤ → Option ℤ → State (ℕ × Option PageListing)
unfolding listing_of
list gorm page limit w =
    let (r, w1) = list_pages gorm (or_number page 1) (or_number limit 20) w in
    (reply (always 500) 200 (listing_of (or_number page 1) (or_number limit 20)) r, w1)

-- The body has the fields of the request; the title is required.
abbrev bind : Option StatusPageRequest → Option StatusPageRequest
bind none = none
bind (some req) = if req.title == "" then none else some req

-- `StatusPageHandler.Get`
unfoldable pub get : String → State (ℕ × Option StatusPageResponse)
get id w = let (r, w1) = get_page id w in (reply (always 404) 200 to_status_page_response r, w1)

abbrev create_bound : String → Option StatusPageRequest → State (ℕ × Option StatusPageResponse)
create_bound generated none w = ((400, none), w)
create_bound generated (some req) w =
    let (r, w1) = create_page generated req w in
    (reply (always 400) 201 to_status_page_response r, w1)

-- `StatusPageHandler.Create`; `generated` is what `generateSlug` gives for the title.
unfoldable pub create : String → Option StatusPageRequest → State (ℕ × Option StatusPageResponse)
create generated body = create_bound generated (bind body)

abbrev update_error : Error → ℕ
update_error not_found = 404
update_error _ = 400

abbrev update_bound : String → Option StatusPageRequest → State (ℕ × Option StatusPageResponse)
update_bound id none w = ((400, none), w)
update_bound id (some req) w =
    let (r, w1) = update_page id req w in (reply update_error 200 to_status_page_response r, w1)

-- `StatusPageHandler.Update`
unfoldable pub update_handler :
    String → Option StatusPageRequest → State (ℕ × Option StatusPageResponse)
update_handler id body = update_bound id (bind body)

-- `StatusPageHandler.Delete`
unfoldable pub delete : String → State ℕ
delete id w = let (r, w1) = delete_page id w in (status_of (always 404) 204 r, w1)

module _ (floats : Floats) (ilike : String → String → Bool) where
  -- `StatusPageHandler.GetPublic`
  unfoldable pub show : String → State (ℕ × Option (PublicStatusPageData floats))
  show slug w =
      let (r, w1) = get_public floats ilike slug w in (reply (always 404) 200 (λ page. page) r, w1)

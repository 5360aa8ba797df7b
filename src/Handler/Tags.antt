-- ===== src/Handler/Tags.antt =====
-- internal/adapter/handler/tag_handler.go. A body is `none` if gin cannot
-- parse it. The times in a response are not formatted.
use hivepulse.Prelude.{ℕ, Bool, String, ◌==◌, ◌||◌, Option, none, some, List, if◌then◌else◌}
use hivepulse.Domain.{Tag}
use hivepulse.World.{State}
use hivepulse.Usecase.Tag.{create_tag, delete_tag, list_tags}
use hivepulse.Usecase.Monitor.{assign_tag, unassign_tag, get_tags}
use hivepulse.Handler.Replies.{status_of, reply, always}

pub record TagWriteRequest : Type 0 where
  pub name : String
  pub color : String

-- A response has the fields of the tag.
abbrev create_bound : Option TagWriteRequest → State (ℕ × Option Tag)
create_bound none w = ((400, none), w)
create_bound (some req) w =
    if req.name == "" || req.color == ""
    then ((400, none), w)
    else (let (r, w1) = create_tag req.name req.color w in (reply (always 400) 201 (λ t. t) r, w1))

-- `TagHandler.Create`
unfoldable pub create : Option TagWriteRequest → State (ℕ × Option Tag)
create body = create_bound body

-- `TagHandler.Delete`: any error is answered as a tag that is not there.
unfoldable pub delete : String → State ℕ
delete id w = let (r, w1) = delete_tag id w in (status_of (always 404) 204 r, w1)

-- `TagHandler.AssignTag`
unfoldable pub assign : String → String → State ℕ
assign monitor tag w = let (r, w1) = assign_tag monitor tag w in (status_of (always 404) 204 r, w1)

-- `TagHandler.UnassignTag`
unfoldable pub unassign : String → String → State ℕ
unassign monitor tag w =
    let (r, w1) = unassign_tag monitor tag w in (status_of (always 500) 204 r, w1)

-- `TagHandler.GetMonitorTags`
unfoldable pub get_monitor_tags : String → State (ℕ × Option (List Tag))
get_monitor_tags monitor w =
    let (r, w1) = get_tags monitor w in (reply (always 500) 200 (λ l. l) r, w1)

-- `TagHandler.List`; `before` is the order of the database's collation.
unfoldable pub list : (String → String → Bool) → State (ℕ × Option (List Tag))
list before w = let (r, w1) = list_tags before w in (reply (always 500) 200 (λ l. l) r, w1)

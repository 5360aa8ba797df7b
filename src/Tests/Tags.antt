-- ===== src/Tests/Tags.antt =====
-- Requests for tags.
use hivepulse.Prelude.{ℕ, map, refl, List, [], ◌∷◌}
use hivepulse.Domain.{Tag}
use hivepulse.World.{World}
use hivepulse.Tasks.{weave}
use hivepulse.Usecase.Tag.{is_hex_color}
use hivepulse.Usecase.Tag.Valid.{IsTagged}
use hivepulse.Usecase.Tag.Overlap.{
  TagRequest, creates, deletes, request_task, overlapping_requests-IsTagged,
}
use hivepulse.Tests.Data.{world}

abbrev tags : List Tag
tags = record { id = "g1"; name = "prod"; color = "#6BA3F7"; created_at = 1 } ∷ []

abbrev tagged_world : World
tagged_world = record world { db = record world.db { tags = tags } }

tags-IsTagged : IsTagged tags
unfolding is_hex_color
tags-IsTagged = record { fitting = refl; apart = refl }

-- Two requests for one name, and one to delete a tag.
abbrev requests : List TagRequest
requests = creates " staging " "#F5A623" ∷ creates "staging" "#000000" ∷ deletes "g1" ∷ []

abbrev together : List ℕ
together = 2 ∷ 0 ∷ 1 ∷ 2 ∷ []

overlapping_requests-IsTagged_example :
    IsTagged (weave together (map request_task requests) tagged_world).1.db.tags
overlapping_requests-IsTagged_example =
    overlapping_requests-IsTagged requests together tagged_world tags-IsTagged

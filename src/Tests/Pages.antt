-- ===== src/Tests/Pages.antt =====
-- The slug of a title with blanks and signs.
use hivepulse.Prelude.{ℕ, ◌≡◌, refl, true, List, codes}
use hivepulse.Usecase.Slug.{generate_slug, replace_runs, trim_dashes_left, trim_dashes_right}
use hivepulse.Usecase.Slug.Tidy.{tidy, generate_slug-tidy}

abbrev title : List ℕ
title = codes "  our api & site! "

abbrev random : List ℕ
random = codes "a1b2"

generate_slug-tidy_example : tidy true (generate_slug title random) ≡ true
generate_slug-tidy_example = generate_slug-tidy title random refl

slug_of_title : generate_slug title random ≡ codes "our-api-site-a1b2"
unfolding generate_slug replace_runs trim_dashes_left trim_dashes_right
slug_of_title = refl

-- ===== src/Usecase/Tag.antt =====
-- internal/usecase/tag_usecase.go.
pub mod Valid
pub mod Overlap
use hivepulse.Prelude.{
  ℕ, String, ◌==◌, Bool, true, false, not, ◌&&◌, ◌||◌, List, [], ◌∷◌, eqb, leb, length, codes, all,
  trim_space, if◌then◌else◌,
}
use hivepulse.Domain.{Error, Result, ok, err, validation, not_found, Tag}
use hivepulse.World.{World, Action}
use hivepulse.Repo.Tags

-- [0-9A-Fa-f]
abbrev pub is_hex : ℕ → Bool
is_hex c = (leb 48 c && leb c 57) || (leb 65 c && leb c 70) || (leb 97 c && leb c 102)

-- "#", then six such digits.
abbrev after_hash : List ℕ → Bool
after_hash [] = false
after_hash (c ∷ s) = eqb c 35 && eqb (length s) 6 && all is_hex s

-- `hexColorRe.MatchString`
unfoldable pub is_hex_color : String → Bool
is_hex_color color = after_hash (codes color)

abbrev pub new_tag : String → String → Tag
new_tag name color = record { id = ""; name = name; color = color; created_at = 0 }

abbrev pub create_named : String → String → Action Tag
create_named name color w =
    if name == ""
    then (err (validation "name is required"), w)
    else if is_hex_color color
    then Tags.create (new_tag name color) w
    else (err (validation "color must be a valid hex color (e.g. #F5A623)"), w)

-- `TagUsecase.Create`
unfoldable pub create_tag : String → String → Action Tag
create_tag name color = create_named (trim_space name) color

abbrev pub delete_found : String → Result Tag → Action (Unit {0})
delete_found id (err e) w = (err not_found, w)
delete_found id (ok t) w = Tags.delete id w

-- `TagUsecase.Delete`
unfoldable pub delete_tag : String → Action (Unit {0})
delete_tag id w = let (t, w1) = Tags.find_by_id id w in delete_found id t w1

-- `TagUsecase.List`
unfoldable pub list_tags : (String → String → Bool) → Action (List Tag)
list_tags = Tags.list

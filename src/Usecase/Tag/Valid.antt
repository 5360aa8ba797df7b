-- ===== src/Usecase/Tag/Valid.antt =====
-- What holds of all tags in the table.
use mathlib.Core.Path.{subst}
use hivepulse.Prelude.{
  String, ◌==◌, ◌≡◌, refl, sym, inl, inr, Bool, Bool-cases, true, false, not, List, [], ◌∷◌, ◌++◌,
  any, any-append, ◌&&◌, arith, trim_space, eq_iff,
}
use hivepulse.Domain.{Time, Tag}
use hivepulse.World.{Db, World, query-cases, first_id, later_ids}
use hivepulse.Repo.Tags
use hivepulse.Repo.Tags.{insert_tag}
use hivepulse.Usecase.Tag.{is_hex_color, new_tag, create_named, create_tag}

abbrev pub fits : Tag → Bool
fits t = not (t.name == "") && is_hex_color t.color

abbrev pub distinct_names : List Tag → Bool
distinct_names [] = true
distinct_names (t ∷ l) = not (any (λ x. x.name == t.name) l) && distinct_names l

-- Each tag has a name that is not empty and no other tag's, and a colour in hexadecimal.
pub record IsTagged (l : List Tag) : Type 0 where
  pub fitting : any (λ t. not (fits t)) l ≡ false
  pub apart : distinct_names l ≡ true

distinct_names-snoc :
    (t : Tag) (l : List Tag)
    → any (λ x. x.name == t.name) l ≡ false
    → distinct_names l ≡ true
    → distinct_names (l ++ t ∷ []) ≡ true
distinct_names-snoc t [] new h = refl
distinct_names-snoc t (x ∷ l) new h = ground (
  arith,
  distinct_names-snoc t l,
  any-append (λ y. y.name == x.name) l (t ∷ []),
  eq_iff x.name t.name,
  eq_iff t.name x.name,
)

added :
    (t : Tag) (l : List Tag)
    → fits t ≡ true
    → any (λ x. x.name == t.name) l ≡ false
    → IsTagged l
    → IsTagged (l ++ t ∷ [])
added t l fit free s = record {
  fitting = ground (arith, s.fitting, any-append (λ x. not (fits x)) l (t ∷ []));
  apart = distinct_names-snoc t l free s.apart;
}

inserted :
    (t : Tag) (now : Time) (id : String) (d : Db)
    → fits t ≡ true
    → IsTagged d.tags
    → IsTagged (insert_tag t now id d).1.tags
inserted t now id d fit s =
    let row : Tag = record t { id = id; created_at = now } in
    elim (Bool-cases (any (λ x. x.name == t.name) d.tags)) [
      | inl taken ↦ rw taken s
      | inr free ↦ rw free (added row d.tags fit free s)
    ]

pub created :
    (t : Tag) (w : World)
    → fits t ≡ true
    → IsTagged w.db.tags
    → IsTagged (Tags.create t w).1.db.tags
unfolding Tags.create
created t w fit s =
    elim (query-cases (insert_tag t w.now (first_id w.fresh))
      (record w { fresh = later_ids w.fresh })) [
        | inl (m, failed, same) ↦ subst (λ d. IsTagged d.tags) (sym same) s
        | inr (done, same) ↦
            subst (λ d. IsTagged d.tags) (sym same) (inserted t w.now (first_id w.fresh) w.db fit s)
      ]

named :
    (name color : String) (w : World)
    → IsTagged w.db.tags
    → IsTagged (create_named name color w).1.db.tags
named name color w s = elim (Bool-cases (name == "")) [
  | inl empty ↦ rw empty s
  | inr nonempty ↦ elim (Bool-cases (is_hex_color color)) [
    | inl hex ↦ rw (nonempty, hex) (created (new_tag name color) w (ground arith) s)
    | inr wrong ↦ rw (nonempty, wrong) s
  ]
]

-- Whatever a request for a tag says and whatever faults the database has: if each tag in the table has a
-- name of its own that is not empty, and a colour of "#" and six hexadecimal digits, then so it is after
-- the request.
create_tag-IsTagged :
    (name color : String) (w : World)
    → IsTagged w.db.tags
    → IsTagged (create_tag name color w).1.db.tags
unfolding create_tag
create_tag-IsTagged name color w s = named (trim_space name) color w s

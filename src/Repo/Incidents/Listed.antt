-- ===== src/Repo/Incidents/Listed.antt =====
-- What a listing of incidents gives.
use hivepulse.Prelude.{
  ℕ, String, ◌≡◌, refl, ap, ◌∙◌, Bool, true, inl, inr, List, [], ◌∷◌, map, all, length, arith,
}
use hivepulse.Domain.{Result, ok, err, Incident}
use hivepulse.World.{Db, World, query-cases, fetch-db, fetch_calm}
use hivepulse.Repo.Incidents.{with_current_name, base_query, page_rows, counted_rows, listing}

module _ (p : Incident → Bool) (d : Db)
    (blind : (i : Incident) → p (with_current_name d i) ≡ p i) where
  pub all-named :
      (is : List Incident) → all p is ≡ true → all p (map (with_current_name d) is) ≡ true
  all-named [] h = refl
  all-named (i ∷ is) h = ground (arith, blind i, all-named is)

pub length-named : (d : Db) (is : List Incident) → length (map (with_current_name d) is) ≡ length is
length-named d [] = refl
length-named d (i ∷ is) = ground (arith, length-named d is)

module _ (ilike : String → String → Bool) (also : Incident → Bool) (q : String)
    (offset limit : ℕ) where
  abbrev expected : Db → List Incident
  expected d = map (with_current_name d) (page_rows ilike also q offset limit d)

  counted_rows-expected :
      (r : Result ℕ) (w : World) (rows : List Incident) (total : ℕ)
      → (counted_rows ilike also q offset limit r w).0 ≡ ok (rows, total)
      → rows ≡ expected w.db
  counted_rows-expected (err e) w rows total h = cc
  counted_rows-expected (ok n) w rows total h =
      elim (query-cases {0} {A = List Incident × ℕ} (λ d. (ok (expected d, n), d)) w) [
        | inl (m, failed, same) ↦ cc
        | inr (done, same) ↦ cc
      ]

  counted_rows-db :
      (r : Result ℕ) (w : World) → (counted_rows ilike also q offset limit r w).1.db ≡ w.db
  counted_rows-db (err e) w = refl
  counted_rows-db (ok n) w = fetch-db (λ d. ok (expected d, n)) w

  -- A listing that goes through gives the page of the rows, with the names that the monitors have now.
  pub listing-expected :
      (w : World) (rows : List Incident) (total : ℕ)
      → (listing ilike also q offset limit w).0 ≡ ok (rows, total)
      → rows ≡ map (with_current_name w.db) (page_rows ilike also q offset limit w.db)
  unfolding listing
  listing-expected w rows total h =
      counted_rows-expected _ _ rows total h
      ∙ ap expected (fetch-db (λ d. ok (length (base_query ilike also q d))) w)

  pub listing-db : (w : World) → (listing ilike also q offset limit w).1.db ≡ w.db
  unfolding listing
  listing-db w = counted_rows-db _ _ ∙ fetch-db (λ d. ok (length (base_query ilike also q d))) w

  -- A database that works lists them, and is left as it was.
  pub listing_calm :
      (w : World)
      → w.faults ≡ []
      → listing ilike also q offset limit w ≡ (
        ok (
          map (with_current_name w.db) (page_rows ilike also q offset limit w.db),
          length (base_query ilike also q w.db),
        ),
        w,
      )
  unfolding listing
  listing_calm w calm =
      ap (λ r. counted_rows ilike also q offset limit r.0 r.1)
        (fetch_calm (λ d. ok (length (base_query ilike also q d))) w calm)
      ∙ fetch_calm (λ d. ok (expected d, length (base_query ilike also q w.db))) w calm

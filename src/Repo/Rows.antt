-- ===== src/Repo/Rows.antt =====
-- What the statements on incidents do to the open ones, as facts on lists of rows.
use hivepulse.Prelude.{
  ◌≤◌, String, ◌==◌, ◌≡◌, refl, Bool, true, false, none, some, List, [], ◌∷◌, ◌++◌, length, any,
  select, find, update, any-append, arith, eq_iff, eq_refl,
}
use hivepulse.Domain.{Time, Incident, Monitor}
use hivepulse.Repo.Monitors.{with_status}
use hivepulse.Repo.Incidents.{open_of, resolved_with}

-- Which rows there are, when none meets the clause.
pub length-select_none {ℓ} :
    {A : Type ℓ} (p : A → Bool) (l : List A) → any p l ≡ false → length (select p l) ≡ 0
length-select_none p [] h = refl
length-select_none p (x ∷ l) h = ground (arith, length-select_none p l)

pub length-select_some {ℓ} :
    {A : Type ℓ} (p : A → Bool) (l : List A) → any p l ≡ true → 1 ≤ length (select p l)
length-select_some p [] h = ground arith
length-select_some p (x ∷ l) h = ground (arith, length-select_some p l)

-- Resolving the incidents of one monitor opens none.
pub open-resolve-le :
    (k id : String) (at : Time) (l : List Incident)
    → length (select (open_of k) (update (open_of id) (resolved_with at) l))
      ≤ length (select (open_of k) l)
open-resolve-le k id at [] = omega arith
open-resolve-le k id at (x ∷ l) = ground (arith, open-resolve-le k id at l)

-- It leaves none of them open.
pub open-resolve_self :
    (id : String) (at : Time) (l : List Incident)
    → any (open_of id) (update (open_of id) (resolved_with at) l) ≡ false
open-resolve_self id at [] = refl
open-resolve_self id at (x ∷ l) = ground (arith, open-resolve_self id at l)

-- The incidents of a monitor, open or not.
abbrev pub of_monitor : String → Incident → Bool
of_monitor k i = i.monitor_id == k

-- It does not touch those of another monitor.
pub resolve_other :
    (k id : String) (at : Time) (l : List Incident)
    → (id == k) ≡ false
    → select (of_monitor k) (update (open_of id) (resolved_with at) l) ≡ select (of_monitor k) l
resolve_other k id at [] h = refl
resolve_other k id at (x ∷ l) h =
    ground
      (arith, resolve_other k id at l h, eq_iff x.monitor_id k, eq_iff x.monitor_id id, eq_iff id k)

-- A row that an UPDATE by id writes is found under the same id, if the id is kept.
pub find-status :
    (id s : String) (t : Time) (l : List Monitor) (m : Monitor)
    → find (λ x. x.id == id) l ≡ some m
    → find (λ x. x.id == id) (update (λ x. x.id == id) (with_status s t) l)
      ≡ some (with_status s t m)
find-status id s t [] m h = cc
find-status id s t (x ∷ l) m h = ground (arith, find-status id s t l m)

pub find-any :
    (id : String) (l : List Monitor) (m : Monitor)
    → find (λ x. x.id == id) l ≡ some m
    → any (λ x. x.id == id) l ≡ true
find-any id [] m h = cc
find-any id (x ∷ l) m h = ground (arith, find-any id l m)

-- A new open incident is among the open ones.
pub open-snoc :
    (i : Incident) (l : List Incident)
    → i.resolved_at ≡ none
    → any (open_of i.monitor_id) (l ++ i ∷ []) ≡ true
open-snoc i l h = ground (arith, any-append (open_of i.monitor_id) l (i ∷ []), eq_refl i.monitor_id)

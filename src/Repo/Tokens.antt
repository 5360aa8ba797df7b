-- ===== src/Repo/Tokens.antt =====
-- internal/adapter/repo/token_repo.go: the table refresh_tokens.
use hivepulse.Prelude.{
  String, ◌==◌, eq_iff, ◌≡◌, ◌≢◌, refl, ap, ◌∙◌, inl, inr, arith, any-append, none, Bool, true,
  false, not, ◌&&◌, List, [], ◌∷◌, ◌++◌, any, find, select, ltb, if◌then◌else◌,
}
use hivepulse.Domain.{Result, is_ok, ok, err, other, Time, RefreshToken}
use hivepulse.World.{Db, World, Action, query, query-cases, first_id, later_ids, insert_row, fetch}
use hivepulse.Repo.Monitors.{found_or}
use hivepulse.Repo.Users.{has_user}

abbrev pub has_hash : String → RefreshToken → Bool
has_hash hash t = t.token_hash == hash

abbrev insert_token : RefreshToken → Time → String → Db → Result (Unit {0}) × Db
insert_token t now id d =
    if has_user d t.user_id && not (any (has_hash t.token_hash) d.tokens)
    then (ok tt, record d { tokens = d.tokens ++ record t { id = id; created_at = now } ∷ [] })
    else (err (other "refresh_tokens: constraint violated"), d)

-- `TokenRepo.Create`
unfoldable pub create : RefreshToken → Action (Unit {0})
create t w = insert_row (insert_token t w.now) w

-- `TokenRepo.FindByHash`, with the creation time that it leaves out.
unfoldable pub find_by_hash : String → Action RefreshToken
find_by_hash hash = fetch (λ d. found_or (find (has_hash hash) d.tokens))

abbrev pub drop_hash : String → Db → Db
drop_hash hash d = record d { tokens = select (λ t. not (has_hash hash t)) d.tokens }

-- `TokenRepo.DeleteByHash`
unfoldable pub delete_by_hash : String → Action (Unit {0})
delete_by_hash hash = query (λ d. (ok tt, drop_hash hash d))

-- `TokenRepo.DeleteExpired`
unfoldable pub delete_expired : Action (Unit {0})
delete_expired w =
    query (λ d. (ok tt, record d { tokens = select (λ t. not (ltb t.expires_at w.now)) d.tokens }))
      w

-- No row has the hash.
abbrev pub Gone : String → Db → Type 0
Gone hash d = any (has_hash hash) d.tokens ≡ false

dropped :
    (hash : String) (l : List RefreshToken)
    → any (has_hash hash) (select (λ t. not (has_hash hash t)) l) ≡ false
dropped hash [] = refl
dropped hash (t ∷ l) = ground (arith, dropped hash l)

pub unfound :
    (hash : String) (l : List RefreshToken)
    → any (has_hash hash) l ≡ false
    → find (has_hash hash) l ≡ none
unfound hash [] h = refl
unfound hash (t ∷ l) h = ground (arith, unfound hash l)

pub find_by_hash-Gone :
    (hash : String) (w : World) → Gone hash w.db → is_ok (find_by_hash hash w).0 ≡ false
unfolding find_by_hash
find_by_hash-Gone hash w gone =
    elim (query-cases (λ d. (found_or (find (has_hash hash) d.tokens), d)) w) [
      | inl (m, failed, same) ↦ ap is_ok failed
      | inr (done, same) ↦ ap is_ok (done ∙ ap found_or (unfound hash w.db.tokens gone))
    ]

pub delete_by_hash-Gone :
    (hash : String) (w : World)
    → is_ok (delete_by_hash hash w).0 ≡ true
    → Gone hash (delete_by_hash hash w).1.db
unfolding delete_by_hash
delete_by_hash-Gone hash w fine = elim (query-cases {0} (λ d. (ok tt, drop_hash hash d)) w) [
  | inl (m, failed, same) ↦ ground arith
  | inr (done, same) ↦ ap (λ d. any (has_hash hash) d.tokens) same ∙ dropped hash w.db.tokens
]

created :
    (hash : String) (t : RefreshToken) (now : Time) (id : String) (d : Db)
    → t.token_hash ≢ hash
    → Gone hash d
    → Gone hash (insert_token t now id d).1
created hash t now id d other_one gone = ground (
  arith,
  eq_iff t.token_hash hash,
  any-append (has_hash hash) d.tokens (record t { id = id; created_at = now } ∷ []),
)

pub create-Gone :
    (hash : String) (t : RefreshToken) (w : World)
    → t.token_hash ≢ hash
    → Gone hash w.db
    → Gone hash (create t w).1.db
unfolding create
create-Gone hash t w other_one gone =
    elim (query-cases (insert_token t w.now (first_id w.fresh))
      (record w { fresh = later_ids w.fresh })) [
        | inl (m, failed, same) ↦ ap (λ d. any (has_hash hash) d.tokens) same ∙ gone
        | inr (done, same) ↦
            ap (λ d. any (has_hash hash) d.tokens) same
            ∙ created hash t w.now (first_id w.fresh) w.db other_one gone
      ]

-- ===== src/World.antt =====
-- What the operations read and change: the tables of the database, the clock, and what they leave
-- for other goroutines. The constraints of the tables are those of migrations/.
use hivepulse.Prelude.{
  ℕ, String, Bool, Option, none, some, ◌≡◌, refl, ap, ◌⊎◌, inl, inr, List, [], ◌∷◌,
}
use hivepulse.Domain.{
  Error, Result, ok, err, other, Time, Monitor, Heartbeat, Incident, MaintenanceWindow,
  NotificationChannel, NotificationLog, AssignmentTriggers, User, RefreshToken, Tag, StatusPage,
  SmtpConfig, BucketRow,
}

-- monitor_notification_channels
pub record Assignment : Type 0 where
  pub monitor_id : String
  pub channel_id : String
  pub triggers : AssignmentTriggers

-- monitor_tags and status_page_tags: who carries which tag
pub record TagLink : Type 0 where
  pub owner_id : String
  pub tag_id : String

pub record Db : Type 0 where
  pub monitors : List Monitor
  pub heartbeats : List Heartbeat
  pub incidents : List Incident
  pub windows : List MaintenanceWindow
  pub channels : List NotificationChannel
  pub assignments : List Assignment
  pub logs : List NotificationLog
  pub users : List User
  pub tokens : List RefreshToken
  pub tags : List Tag
  pub monitor_tags : List TagLink
  pub pages : List StatusPage
  pub page_tags : List TagLink
  pub timezone : Option String
  pub smtp : Option SmtpConfig
  pub hourly : List BucketRow
  pub minutely : List BucketRow
  pub daily : List BucketRow

-- The event that a check broadcasts to the dashboards.
pub record HeartbeatEvent : Type 0 where
  pub monitor_id : String
  pub status : String
  pub ping_ms : ℕ
  pub checked_at : Time

-- A `go u.notifier.Notify(…)` that has been started.
pub record Spawned : Type 0 where
  pub monitor_id : String
  pub event : String

-- A call of `NotificationSender.Send`, and whether it went well.
pub record Delivery : Type 0 where
  pub channel_id : String
  pub monitor_id : String
  pub event : String
  pub done : Bool

-- `fresh` holds the ids that the database will generate, and `faults` what will become of its next
-- statements: `some message` is a failure, `none` and the end of the list are none.
pub record World : Type 0 where
  pub db : Db
  pub now : Time
  pub fresh : List String
  pub faults : List (Option String)
  pub spawned : List Spawned
  pub events : List HeartbeatEvent
  pub outbox : List Delivery

-- An operation that may change the world.
abbrev pub State {ℓ} : Type ℓ → Type ℓ
State A = World → A × World

-- The id that the database generates next, and the ids after it.
abbrev pub first_id : List String → String
first_id [] = ""
first_id (id ∷ rest) = id

abbrev pub later_ids : List String → List String
later_ids [] = []
later_ids (id ∷ rest) = rest

-- One that returns a value and an `error`.
abbrev pub Action {ℓ} : Type ℓ → Type ℓ
Action A = State (Result A)

module _ {ℓ} {A : Type ℓ} where
  abbrev pub pure : A → Action A
  pure a w = (ok a, w)

  abbrev pub raise : Error → Action A
  raise e w = (err e, w)

  abbrev run_on : (Db → Result A × Db) → World → Result A × World
  run_on q w = let (r, db') = q w.db in (r, record w { db = db' })

  -- With the faults that are left: a statement that fails changes nothing.
  abbrev query_from : (Db → Result A × Db) → World → List (Option String) → Result A × World
  query_from q w [] = run_on q w
  query_from q w (none ∷ rest) = run_on q (record w { faults = rest })
  query_from q w (some message ∷ rest) = (err (other message), record w { faults = rest })

  -- One statement of the database.
  abbrev pub query : (Db → Result A × Db) → Action A
  query q w = query_from q w w.faults

  pub query_calm :
      (q : Db → Result A × Db) (w : World)
      → w.faults ≡ []
      → query q w ≡ ((q w.db).0, record w { db = (q w.db).1 })
  query_calm q w calm = ap (query_from q w) calm

  query_from-cases :
      (q : Db → Result A × Db) (w : World) (faults : List (Option String))
      → ((m : String) × ((query_from q w faults).0 ≡ err (other m))
          × ((query_from q w faults).1.db ≡ w.db))
        ⊎ (((query_from q w faults).0 ≡ (q w.db).0) × ((query_from q w faults).1.db ≡ (q w.db).1))
  query_from-cases q w [] = inr (refl, refl)
  query_from-cases q w (none ∷ rest) = inr (refl, refl)
  query_from-cases q w (some m ∷ rest) = inl (m, refl, refl)

  -- A statement fails and changes nothing, or it runs.
  pub query-cases :
      (q : Db → Result A × Db) (w : World)
      → ((m : String) × ((query q w).0 ≡ err (other m)) × ((query q w).1.db ≡ w.db))
        ⊎ (((query q w).0 ≡ (q w.db).0) × ((query q w).1.db ≡ (q w.db).1))
  query-cases q w = query_from-cases q w w.faults

  -- An INSERT that generates an id.
  abbrev pub insert_row : (String → Db → Result A × Db) → Action A
  insert_row q w = query (q (first_id w.fresh)) (record w { fresh = later_ids w.fresh })

  -- A statement that only reads.
  abbrev pub fetch : (Db → Result A) → Action A
  fetch q = query (λ d. (q d, d))

  -- A database without faults answers.
  pub fetch_calm : (q : Db → Result A) (w : World) → w.faults ≡ [] → fetch q w ≡ (q w.db, w)
  fetch_calm q w calm = ap (query_from (λ d. (q d, d)) w) calm

  fetch_from-db :
      (q : Db → Result A) (w : World) (faults : List (Option String))
      → (query_from (λ d. (q d, d)) w faults).1.db ≡ w.db
  fetch_from-db q w [] = refl
  fetch_from-db q w (none ∷ rest) = refl
  fetch_from-db q w (some m ∷ rest) = refl

  -- It leaves the tables as they are.
  pub fetch-db : (q : Db → Result A) (w : World) → (fetch q w).1.db ≡ w.db
  fetch-db q w = fetch_from-db q w w.faults

-- A statement that only writes.
abbrev pub execute : (Db → Db) → Action (Unit {0})
execute f = query (λ d. (ok tt, f d))

module _ {ℓ κ} {A : Type ℓ} {B : Type κ} where
  abbrev pub continue : (A → Action B) → Result A → Action B
  continue f (ok a) w = f a w
  continue f (err e) w = (err e, w)

  -- `a, err := m; if err != nil { return err }`
  infixl 5 ◌>>=◌ ◌>>◌
  abbrev pub ◌>>=◌ : Action A → (A → Action B) → Action B
  ◌>>=◌ m f w = let (r, w') = m w in continue f r w'

  abbrev pub ◌>>◌ : Action A → Action B → Action B
  m >> n = m >>= λ _. n

  -- The error of the first is looked at: `if err != nil { … }`.
  abbrev pub handle : Action A → (Result A → State B) → State B
  handle m f w = let (r, w') = m w in f r w'

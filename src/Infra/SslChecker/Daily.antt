-- ===== src/Infra/SslChecker/Daily.antt =====
-- A certificate that expires soon is announced, and then not again for a day.
use hivepulse.Prelude.{
  ◌+◌, ◌*◌, ◌-◌, ◌≤◌, ◌<◌, String, ◌==◌, ◌≡◌, refl, ap, ◌∙◌, Bool, true, false, ◌&&◌, Option, none,
  some, List, [], ◌∷◌, ◌++◌, any, find, length, select, page_of, order_by, any-append, ltb, ℤ,
  ltb_ℤ, eq_refl, arith, Bool-cases, inl, inr,
}
use hivepulse.Domain.{
  ok, Time, hour, Monitor, NotificationChannel, NotificationLog, event_ssl_expiry,
}
use hivepulse.World.{World, fetch_calm}
use hivepulse.Repo.Monitors
use hivepulse.Repo.Monitors.{newest_first}
use hivepulse.Repo.Logs
use hivepulse.Usecase.Notification.{Services, notify}
use hivepulse.Usecase.Notification.Sending.{row_of}
use hivepulse.Usecase.Notification.Everyone.{globals, told_one, told_all, notify_lem}
use hivepulse.Infra.SslChecker.{
  checks, warn, warn_all, ticked, tick, warn_expiring, warn_unless, warned,
}

-- A row about the certificate of a monitor that was sent after `t`.
abbrev pub warned_after : String → Time → NotificationLog → Bool
warned_after id t l = l.monitor_id == id && l.event == "ssl_expiry" && ltb t l.sent_at

counted :
    (p : NotificationLog → Bool) (l : List NotificationLog) → ltb 0 (length (select p l)) ≡ any p l
counted p [] = refl
counted p (x ∷ l) = ground (arith, counted p l)

recent_calm :
    (id : String) (within : Time) (w : World)
    → w.faults ≡ []
    → Logs.has_recent_ssl_log id within w
      ≡ (ok (any (warned_after id (w.now - within)) w.db.logs), w)
unfolding Logs.has_recent_ssl_log
recent_calm id within w calm =
    fetch_calm (λ d. ok (ltb 0 (length (select (warned_after id (w.now - within)) d.logs)))) w calm
    ∙ ap (λ b. (ok b, w)) (counted (warned_after id (w.now - within)) w.db.logs)

any_last :
    (p : NotificationLog → Bool) (l : List NotificationLog) (x : NotificationLog)
    → p x ≡ true
    → any p (l ++ x ∷ []) ≡ true
any_last p [] x h = rw h refl
any_last p (y ∷ l) x h = ground (arith, any_last p l x)

row_warns :
    (id : String) (ch : NotificationChannel) (t now : Time) (v : Option String)
    → t < now
    → warned_after id t (row_of id ch event_ssl_expiry now v) ≡ true
row_warns id ch t now none after = ground (arith, eq_refl id)
row_warns id ch t now (some e) after = ground (arith, eq_refl id)

module _ (sv : Services) (id : String) (m : Monitor) (t : Time) where
  stays_told :
      (chs : List NotificationChannel) (w : World)
      → any (warned_after id t) w.db.logs ≡ true
      → any (warned_after id t) (told_all sv id event_ssl_expiry m chs w).db.logs ≡ true
  stays_told [] w h = h
  stays_told (ch ∷ chs) w h =
      stays_told chs (told_one sv id event_ssl_expiry m ch w)
        (any-append (warned_after id t) w.db.logs _ ∙ rw h refl)

  tells :
      (ch : NotificationChannel) (chs : List NotificationChannel) (w : World)
      → t < w.now
      → any (warned_after id t) (told_all sv id event_ssl_expiry m (ch ∷ chs) w).db.logs ≡ true
  tells ch chs w after =
      stays_told chs (told_one sv id event_ssl_expiry m ch w)
        (any_last (warned_after id t) w.db.logs _ (row_warns id ch t w.now _ after))

module _ (sv : Services) (days_remaining : String → Option ℤ) (m : Monitor) where
  warn_first :
      (days : ℤ) (w : World)
      → w.faults ≡ []
      → checks m ≡ true
      → days_remaining m.url ≡ some days
      → ltb_ℤ days (ℤ.pos 30) ≡ true
      → any (warned_after m.id (w.now - 24 * hour)) w.db.logs ≡ false
      → warn sv days_remaining m w ≡ notify sv m.id event_ssl_expiry w
  unfolding warn
  warn_first days w calm on left soon fresh =
      rw (on, left, soon)
        (ap (λ r. warn_unless sv (warned r.0) m r.1) (recent_calm m.id (24 * hour) w calm)
          ∙ rw fresh refl)

  expiring_again :
      (days : Option ℤ) (v : World)
      → v.faults ≡ []
      → any (warned_after m.id (v.now - 24 * hour)) v.db.logs ≡ true
      → warn_expiring sv days m v ≡ v
  expiring_again none v calm recent = refl
  expiring_again (some days) v calm recent = elim (Bool-cases (ltb_ℤ days (ℤ.pos 30))) [
    | inl soon ↦ rw soon (
        ap (λ r. warn_unless sv (warned r.0) m r.1) (recent_calm m.id (24 * hour) v calm)
        ∙ rw recent refl)
    | inr later ↦ rw later refl
  ]

  warn_again :
      (v : World)
      → v.faults ≡ []
      → any (warned_after m.id (v.now - 24 * hour)) v.db.logs ≡ true
      → warn sv days_remaining m v ≡ v
  unfolding warn
  warn_again v calm recent = elim (Bool-cases (checks m)) [
    | inl on ↦ rw on (expiring_again (days_remaining m.url) v calm recent)
    | inr off ↦ rw off refl
  ]

-- The monitors that `Tick` reads: the 1000 newest.
abbrev pub looked_at : World → List Monitor
looked_at w = page_of 0 1000 (order_by newest_first w.db.monitors)

module _ (sv : Services) (days_remaining : String → Option ℤ) where
  warn_all-append :
      (before after : List Monitor) (w : World)
      → warn_all sv days_remaining (before ++ after) w
        ≡ warn_all sv days_remaining after (warn_all sv days_remaining before w)
  unfolding warn_all
  warn_all-append [] after w = refl
  warn_all-append (x ∷ before) after w = warn_all-append before after (warn sv days_remaining x w)

  find_calm :
      (w : World)
      → w.faults ≡ []
      → Monitors.find_all 1 1000 w ≡ (ok (looked_at w, length w.db.monitors), w)
  unfolding Monitors.find_all
  find_calm w calm = rw calm refl

  -- `Tick` as the turns of the monitors before one, its own, and those after it.
  turns :
      (before after : List Monitor) (m : Monitor) (w : World)
      → w.faults ≡ []
      → looked_at w ≡ before ++ m ∷ after
      → tick sv days_remaining w ≡ (
        ok tt,
        warn_all sv days_remaining after
            (warn sv days_remaining m (warn_all sv days_remaining before w)),
      )
  unfolding tick warn_all
  turns before after m w calm page =
      ap (λ r. ticked sv days_remaining r.0 r.1) (find_calm w calm)
      ∙ ap (λ ms. (ok tt, warn_all sv days_remaining ms w)) page
      ∙ ap (λ x. (ok tt, x)) (warn_all-append before (m ∷ after) w)

-- Without faults of the database, and with a clock past its zero, take a round of the checker, `Tick`, that reads an enabled stored monitor
-- with an https address among the 1000 newest: `w` is the state at its turn, after the monitors before it.
-- If its certificate is valid for less than 30 days then, no warning of it was sent within the last 24
-- hours, no channel is assigned to it and there is an enabled global channel, then its turn tells each
-- enabled global channel, one after the other, and changes nothing else. Take a second round less than 24
-- hours later that reads the monitor, however it was edited: if the rows that the log had after its first
-- turn are still there (deleting a channel deletes its rows), then its turn does nothing, whatever its
-- certificate is then.
pub warned_daily :
    (sv sv' : Services) (days_remaining days_then : String → Option ℤ) (m m' : Monitor) (days : ℤ)
    (ch : NotificationChannel) (chs : List NotificationChannel) (w0 v0 : World)
    (before after before' after' : List Monitor) (more : List NotificationLog)
    → let w = warn_all sv days_remaining before w0 in
      let v = warn_all sv' days_then before' v0 in
      w0.faults ≡ []
      → looked_at w0 ≡ before ++ m ∷ after
      → w.faults ≡ []
      → 1 ≤ w.now
      → find (λ x. x.id == m.id) w.db.monitors ≡ some m
      → checks m ≡ true
      → days_remaining m.url ≡ some days
      → ltb_ℤ days (ℤ.pos 30) ≡ true
      → any (warned_after m.id (w.now - 24 * hour)) w.db.logs ≡ false
      → any (λ a. a.monitor_id == m.id) w.db.assignments ≡ false
      → globals w.db ≡ ch ∷ chs
      → v0.faults ≡ []
      → looked_at v0 ≡ before' ++ m' ∷ after'
      → m'.id ≡ m.id
      → v.faults ≡ []
      → v.now < w.now + 24 * hour
      → v.db.logs ≡ (warn sv days_remaining m w).db.logs ++ more
      → (tick sv days_remaining w0 ≡ (
        ok tt,
        warn_all sv days_remaining after (told_all sv m.id event_ssl_expiry m (globals w.db) w),
      ))
        × (tick sv' days_then v0 ≡ (ok tt, warn_all sv' days_then after' v))
warned_daily sv sv' days_remaining days_then m m' days ch chs w0 v0 before after before' after' more
      calm0 page calm clock found on left soon fresh unassigned some_channel calm0' page' same calm'
      within since =
    let w : World = warn_all sv days_remaining before w0 in
    let v : World = warn_all sv' days_then before' v0 in
    let first =
      warn_first sv days_remaining m days w calm on left soon fresh
      ∙ notify_lem sv m.id event_ssl_expiry m refl w calm found unassigned in
    let t = v.now - 24 * hour in
    let told : any (warned_after m.id t) (warn sv days_remaining m w).db.logs ≡ true =
      rw (first, some_channel) (tells sv m.id m t ch chs w (omega arith)) in
    let kept : any (warned_after m.id t) v.db.logs ≡ true =
      ap (any (warned_after m.id t)) since
      ∙ any-append (warned_after m.id t) (warn sv days_remaining m w).db.logs more
      ∙ rw told refl in
    (
      turns sv days_remaining before after m w0 calm0 page
          ∙ ap (λ x. (ok tt, warn_all sv days_remaining after x)) first,
      turns sv' days_then before' after' m' v0 calm0' page'
          ∙ ap (λ x. (ok tt, warn_all sv' days_then after' x))
              (warn_again sv' days_then m' v calm'
                (ap (λ id. any (warned_after id t) v.db.logs) same ∙ kept)),
    )

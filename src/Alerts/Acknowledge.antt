-- ===== src/Alerts/Acknowledge.antt =====
-- Clearing alerts: one by its identifier, and an agent's open offline alerts.
use project.Alerts.Service.{
  acknowledge, acknowledge_found, acknowledge_open_offline_alerts, acknowledge_row, is_open_offline,
}
use project.Base.{
  Bool-cases, Option, String, any, any-update_none, arith, eq_option, eq_string, eq_ℕ, false, find,
  find-eq-some, find-update, inl, inr, none, some, sym, true, update_row, ℕ, ◌==◌, ◌≡◌,
}
use project.Db.{Prisma}
use project.Hub.{Alert, Hub}
use project.Maintenance.RollUpWindow.{found}

module _ (db : Prisma) where
  acknowledged_row :
      (now : ℕ) (id : String) (h h' : Hub) (a : Alert) (o : Option Alert)
      → find (λ r. r.id == id) h.alerts ≡ o
      → acknowledge_found db now id h o ≡ some (h', a)
      → (find (λ r. r.id == id) h'.alerts ≡ some a) × (a.acknowledged ≡ true)
  unfolding acknowledge_found
  acknowledged_row now id h h' a none found e = absurd (ground arith)
  acknowledged_row now id h h' a (some b) found e = elim (Bool-cases b.acknowledged) [
    | inl done ↦ ground arith
    | inr open_row ↦ ground (
      arith,
      db.update_many_lem (λ r. r.id == id) (acknowledge_row now) h.alerts,
      find-update (λ r. r.id == id) (λ r. r.id == id) (acknowledge_row now) h.alerts
          (λ r. ground arith),
      find-eq-some (λ r. r.id == id) h.alerts {x = b},
    )
  ]

  -- A second acknowledgement changes nothing and returns the same row, the first time stamp kept.
  acknowledge_again :
      (now later : ℕ) (id : String) (h h' : Hub) (a : Alert)
      → acknowledge db now id h ≡ some (h', a)
      → acknowledge db later id h' ≡ some (h', a)
  unfolding acknowledge
  acknowledge_again now later id h h' a e =
      let (found, done) =
        acknowledged_row now id h h' a _ (sym (db.find_unique_lem _ h.alerts)) e in
      rw (db.find_unique_lem, found, acknowledge_found, done)

  -- Clearing an agent's offline alerts leaves none of them open.
  pub clear_offline :
      (now : ℕ) (id : String) (h : Hub)
      → any (is_open_offline id) (acknowledge_open_offline_alerts db now id h).0.alerts ≡ false
  unfolding acknowledge_open_offline_alerts is_open_offline
  clear_offline now id h = rw db.update_many_lem (
      any-update_none (is_open_offline id) (is_open_offline id) (acknowledge_row now) h.alerts
        (cleared now id))
    where
      cleared :
          (t : ℕ) (i : String) (x : Alert)
          → is_open_offline i (update_row (is_open_offline i) (acknowledge_row t) x) ≡ false
      cleared t i x = ground arith

  -- What an acknowledgement returns is the alert as it then stands in the table.
  pub acknowledge-found :
      (now : ℕ) (id : String) (h h' : Hub) (a : Alert)
      → acknowledge db now id h ≡ some (h', a)
      → (find (λ r. r.id == id) h'.alerts ≡ some a) × (a.acknowledged ≡ true)
  unfolding acknowledge
  acknowledge-found now id h h' a e =
      acknowledged_row now id h h' a _ (sym (db.find_unique_lem _ h.alerts)) e

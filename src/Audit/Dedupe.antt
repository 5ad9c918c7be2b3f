-- ===== src/Audit/Dedupe.antt =====
-- The collapse of repeats of a key.
use project.Audit.{Audit, AuditEntry, forget_old, is_within, record_entry}
use project.Base.{
  ==_iff, Bool-cases, List, String, [], arith, eq_string, eq_ℕ, get_key, get_key-set_key_self, inl,
  inr, ltb, select, set_key, some, ℕ, ◌+◌, ◌<◌, ◌∷◌, ◌≡◌, ◌≢◌, ◌≤◌,
}

-- The sweep keeps a key whose stamp is inside the window.
get_key-select :
    (k : String) (now window at : ℕ) (m : List (String × ℕ))
    → now < at + window
    → get_key k m ≡ some at
    → get_key k (select (λ e. ltb now (e.1 + window)) m) ≡ some at
unfolding get_key select
get_key-select k now window at [] h e = absurd (ground arith)
get_key-select k now window at ((j, old) ∷ m) h e =
    ground (arith, get_key-select k now window at m h)

get_key-forget_old :
    (k : String) (now window at : ℕ) (m : List (String × ℕ))
    → now < at + window
    → get_key k m ≡ some at
    → get_key k (forget_old now window m) ≡ some at
unfolding forget_old
get_key-forget_old k now window at m h e = ground (arith, get_key-select k now window at m h e)

-- An entry under a key, written at one time, makes every entry under that key vanish until its own
-- window is over: neither the log nor the map changes.
record_entry_again :
    (now later : ℕ) (e e' : AuditEntry) (a : Audit) (key : String) (window : ℕ)
    → e.dedupe_key ≡ some key
    → e.dedupe_window_ms ≡ some window
    → e'.dedupe_key ≡ some key
    → e'.dedupe_window_ms ≡ some window
    → key ≢ ""
    → now ≤ later
    → later < now + window
    → (record_entry now e a).log ≢ a.log
    → record_entry later e' (record_entry now e a) ≡ record_entry now e a
unfolding record_entry
record_entry_again now later e e' a key window k w k' w' n le lt wrote =
    elim (Bool-cases (is_within now window (get_key key a.recent))) [
      | inl recently ↦ absurd (wrote (ground (arith, ==_iff key "")))
      | inr new ↦
          let kept =
            get_key-forget_old key now window now (set_key key now a.recent) (omega arith)
              (get_key-set_key_self key now a.recent) in
          ground (arith, kept, ==_iff key "")
    ]

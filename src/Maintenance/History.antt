-- ===== src/Maintenance/History.antt =====
-- The event table and the roll-ups, over the life of the hub: no event is lost to the reports but those
-- of an agent whose session ended.
use project.Cameras.Browser.{reap_ended_sessions}
use project.Maintenance.ForeignKeys.{cascade_events, is_gone}
use project.Base.{
  Bool, count-select, false, not, true, ◌||◌, Bool-cases, List, String, [], ap, arith, count,
  count-append_one, count-snoc_none, if◌then◌else◌, inl, inr, leb, leb→le, refl, sym, ℕ, ◌++◌, ◌+◌,
  ◌<◌, ◌∙◌, ◌∷◌, ◌≡◌, ◌≤◌,
}
use project.Db.{Prisma}
use project.Hub.{Agent, Event}
use project.Maintenance.Retention.{BatchDelete, prune_events, start_of_hour}
use project.Maintenance.RetentionLaws.{prune_events_fewer, prune_events_spares}
use project.Maintenance.RollUp.{Bucket, bucket_of, next_hour, roll_up_events}
use project.Maintenance.RollUpCounted.{counted_ahead}
use project.Maintenance.RollUpLaws.{bucket_eq_iff, counted, is_in}
use project.Maintenance.RollUpWhole.{roll_up_events-IsCounted}
use project.Maintenance.RollUpWindow.{IsWhole, is_in-after, is_in-late, start_of_hour_le}
use project.Maintenance.Sweep.{Store, Windows, run}
use project.Settings.{Settings}

-- The store with the events of all time, deleted ones included, the agents that a sweep has deleted,
-- and the time of the last step.
pub record World : Type 0 where
  pub history : List Event
  pub reaped : String → Bool
  pub store : Store
  pub clock : ℕ

-- What is known of a bucket: the stored count before the watermark, the table's own after it.
unfoldable pub known : Bucket → Store → ℕ
known b s =
    if leb (next_hour s.rollups) b.hour then count (is_in b) s.events else counted b s.rollups

no_rows-next_hour : (s : Store) → s.rollups ≡ [] → next_hour s.rollups ≡ 0
unfolding next_hour
no_rows-next_hour s e = rw e refl

zero-IsWhole : IsWhole 0
unfolding start_of_hour
zero-IsWhole = omega arith

neither : (x y : Bool) → (x || y) ≡ false → (x ≡ false) × (y ≡ false)
neither x y h = (ground arith, ground arith)

is_in_agent : (b : Bucket) (e : Event) → is_in b e ≡ true → b.agent_id ≡ e.agent_id
unfolding is_in bucket_of
is_in_agent b e h = ap (λ c. c.agent_id) ((bucket_eq_iff b (bucket_of e)).0 h)

module _ (db : Prisma) (hash : String → String) (sql : BatchDelete) (cfg : Settings)
    (days : Windows) where
  -- A sweep, with the agents that it deletes.
  abbrev pub after_sweep : ℕ → World → World
  after_sweep now w =
      let done = (run db hash sql cfg days now w.store).0 in
      record w {
        store = done;
        reaped = λ id. w.reaped id || is_gone (λ a. a.id) w.store.agents done.agents id;
        clock = now;
      }

  -- From a hub without roll-ups, on the one clock that stamps the events and wakes the sweep.
  pub data WorldReached : World → Type 0 where
    fresh :
        (s : Store) (clock : ℕ)
        → s.rollups ≡ []
        → WorldReached
            (record { history = s.events; reaped = λ id. false; store = s; clock = clock })
    stored :
        (w : World) (e : Event)
        → WorldReached w
        → w.clock ≤ e.created_at
        → WorldReached (record {
          history = w.history ++ e ∷ [];
          reaped = w.reaped;
          store = record w.store { events = db.create e w.store.events };
          clock = e.created_at;
        })
    -- The other tables change: agents register, alerts are raised and acknowledged.
    changed :
        (w : World) (s : Store)
        → WorldReached w
        → s.events ≡ w.store.events
        → s.rollups ≡ w.store.rollups
        → WorldReached (record w { store = s })
    swept :
        (w : World) (now : ℕ) → WorldReached w → w.clock ≤ now → WorldReached (after_sweep now w)

  pub record IsFaithful (w : World) : Type 0 where
    past :
        (b : Bucket)
        → w.reaped b.agent_id ≡ false
        → b.hour < next_hour w.store.rollups
        → counted b w.store.rollups ≡ count (is_in b) w.history
    future :
        (b : Bucket)
        → w.reaped b.agent_id ≡ false
        → next_hour w.store.rollups ≤ b.hour
        → count (is_in b) w.store.events ≡ count (is_in b) w.history
    whole : IsWhole (next_hour w.store.rollups)
    in_time : next_hour w.store.rollups ≤ w.clock

  fresh-IsFaithful :
      (s : Store) (clock : ℕ)
      → s.rollups ≡ []
      → IsFaithful (record { history = s.events; reaped = λ id. false; store = s; clock = clock })
  fresh-IsFaithful s clock none_yet = record {
    past = λ b f h. absurd (omega (arith, no_rows-next_hour s none_yet));
    future = λ b f h. refl;
    whole = rw (no_rows-next_hour s none_yet) zero-IsWhole;
    in_time = omega (arith, no_rows-next_hour s none_yet);
  }

  stored-IsFaithful :
      (w : World) (e : Event)
      → IsFaithful w
      → w.clock ≤ e.created_at
      → IsFaithful (record {
        history = w.history ++ e ∷ [];
        reaped = w.reaped;
        store = record w.store { events = db.create e w.store.events };
        clock = e.created_at;
      })
  stored-IsFaithful w e i late = record {
    past = λ b f h.
        i.past b f h
        ∙ sym (
            count-snoc_none (is_in b) w.history e (
              is_in-late (next_hour w.store.rollups) b e i.whole (omega (arith, i.in_time, late))
                h));
    future = λ b f h.
        ap (count (is_in b)) (db.create_lem e w.store.events)
        ∙ count-append_one (is_in b) w.store.events e
        ∙ ap (λ n. n + count (is_in b) (e ∷ [])) (i.future b f h)
        ∙ sym (count-append_one (is_in b) w.history e);
    whole = i.whole;
    in_time = omega (arith, i.in_time, late);
  }

  changed-IsFaithful :
      (w : World) (s : Store)
      → IsFaithful w
      → s.events ≡ w.store.events
      → s.rollups ≡ w.store.rollups
      → IsFaithful (record w { store = s })
  changed-IsFaithful w s i events rollups = record {
    past = λ b f h. rw rollups (i.past b f (rw rollups at h));
    future = λ b f h. rw events (i.future b f (rw rollups at h));
    whole = rw rollups i.whole;
    in_time = rw rollups i.in_time;
  }

  cascade_events-count :
      (before agents : List Agent) (b : Bucket) (events : List Event)
      → is_gone (λ a. a.id) before agents b.agent_id ≡ false
      → count (is_in b) (cascade_events before agents events) ≡ count (is_in b) events
  unfolding cascade_events
  cascade_events-count before agents b events h =
      count-select (λ e. not (is_gone (λ a. a.id) before agents e.agent_id)) (is_in b) events
        (λ e f. rw (sym (is_in_agent b e f), h) refl)

  -- The events of a bucket past the watermark are deleted only with their agent.
  swept-count :
      (now : ℕ) (s : Store) (b : Bucket)
      → is_gone (λ a. a.id) s.agents (run db hash sql cfg days now s).0.agents b.agent_id ≡ false
      → IsWhole (next_hour s.rollups)
      → next_hour (run db hash sql cfg days now s).0.rollups ≤ b.hour
      → count (is_in b) (run db hash sql cfg days now s).0.events ≡ count (is_in b) s.events
  unfolding run
  swept-count now s b there w h =
      let up = roll_up_events now s.events s.rollups in
      let done = roll_up_events-IsCounted now s.events s.rollups w in
      let pruned = (prune_events sql cfg now days.event_days up.rolled_through s.events).0 in
      cascade_events-count s.agents (reap_ended_sessions db hash now s.agents).0 b pruned there
      ∙ elim (Bool-cases (leb up.rolled_through b.hour)) [
        | inl e ↦
            prune_events_spares sql cfg now days.event_days up.rolled_through (is_in b) s.events
              (λ x f. is_in-after up.rolled_through b x e f)
        | inr e ↦
            let gone = done.covered b (omega (arith, done.ahead, h)) (ground arith) in
            let zero_there = counted_ahead b up.rollups h in
            let fewer =
              prune_events_fewer sql cfg now days.event_days up.rolled_through (is_in b) s.events in
            omega arith
      ]

  swept-IsFaithful :
      (w : World) (now : ℕ) → IsFaithful w → w.clock ≤ now → IsFaithful (after_sweep now w)
  unfolding run
  swept-IsFaithful w now i late =
      let up = roll_up_events now w.store.events w.store.rollups in
      let done = roll_up_events-IsCounted now w.store.events w.store.rollups i.whole in
      let start = (start_of_hour_le now).0 in
      record {
        past = λ b f h. elim (Bool-cases (leb (next_hour w.store.rollups) b.hour)) [
          | inl e ↦
              done.covered b (leb→le (next_hour w.store.rollups) b.hour e)
                (ground (arith, done.behind, h, e))
              ∙ i.future b (neither _ _ f).0 (leb→le (next_hour w.store.rollups) b.hour e)
          | inr e ↦ done.kept b (ground arith) ∙ i.past b (neither _ _ f).0 (ground arith)
        ];
        future = λ b f h.
            swept-count now w.store b (neither _ _ f).1 i.whole h
            ∙ i.future b (neither _ _ f).0 (omega (arith, done.ahead, h));
        whole = done.whole;
        in_time = omega (arith, done.behind, done.in_time, i.in_time, late, start);
      }

  reached-IsFaithful : (w : World) → WorldReached w → IsFaithful w
  reached-IsFaithful w (fresh s clock none_yet) = fresh-IsFaithful s clock none_yet
  reached-IsFaithful w (stored w' e r late) = stored-IsFaithful w' e (reached-IsFaithful w' r) late
  reached-IsFaithful w (changed w' s r e f) = changed-IsFaithful w' s (reached-IsFaithful w' r) e f
  reached-IsFaithful w (swept w' now r late) =
      swept-IsFaithful w' now (reached-IsFaithful w' r) late

  -- In every state that events, sweeps and changes of the other tables reach from a hub without
  -- roll-ups on one forward-going clock: for each hour, event type and agent that no sweep has deleted
  -- (a sweep deletes the browser cameras whose session ended, and the database their events with
  -- them), the stored count (before the watermark) or the event table itself (from the watermark on)
  -- tells how many such events there have ever been.
  pub reached-known :
      (w : World) (b : Bucket)
      → WorldReached w
      → w.reaped b.agent_id ≡ false
      → known b w.store ≡ count (is_in b) w.history
  unfolding known
  reached-known w b r f =
      let i = reached-IsFaithful w r in
      elim (Bool-cases (leb (next_hour w.store.rollups) b.hour)) [
        | inl e ↦ rw e (i.future b f (leb→le (next_hour w.store.rollups) b.hour e))
        | inr e ↦ rw e (i.past b f (ground arith))
      ]

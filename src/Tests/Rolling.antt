-- ===== src/Tests/Rolling.antt =====
-- The roll-up and the sweep at concrete inputs: a door that opened at the epoch, and a hub that was
-- silent for more than 90 days afterwards.
use project.Base.{
  String, [], any, arith, count, false, ltb, refl, select, true, ◌*◌, ◌+◌, ◌<◌, ◌∷◌, ◌≡◌,
}
use project.Contracts.Modes.{door_opened}
use project.Hub.{Event}
use project.Maintenance.History.{
  World, after_sweep, WorldReached, fresh, known, reached-known, swept,
}
use project.Maintenance.Progress.{roll_up_events_stalls, run_complete}
use project.Maintenance.Retention.{
  day_ms, delete_from, delete_in_batches, hour_ms, is_old_alert, is_old_event, is_old_notification,
  prune_alerts, prune_audit, prune_events, prune_notifications, start_of_hour,
}
use project.Maintenance.RollUp.{
  Bucket, EventRollup, add_to_groups, bucket_of, groups, in_window, max_rollup_hours_per_sweep,
  next_hour, oldest, roll_up_events, roll_up_from, start_from, window_end,
}
use project.Maintenance.RollUpLaws.{counted, is_in}
use project.Maintenance.RollUpWindow.{IsWhole}
use project.Maintenance.ForeignKeys.{is_gone}
use project.Cameras.Browser.{is_ended, reap_ended_sessions}
use project.Maintenance.Sweep.{Store, Windows, run}
use project.Tests.Database.{list_db}
use project.Tests.Keeping.{drop_first, list_sql}
use project.Tests.Samples.{front_agent, open_alert, settings}

abbrev opened : Event
opened = record {
  id = "e1";
  agent_id = "door-01";
  type = door_opened;
  metadata = "{}";
  occurred_at = 0;
  created_at = 0;
}

abbrev opened_bucket : Bucket
opened_bucket = record { hour = 0; agent_id = "door-01"; type = door_opened }

abbrev counted_once : EventRollup
counted_once = record { bucket = opened_bucket; count = 1 }

abbrev store : Store
store = record {
  events = opened ∷ [];
  rollups = [];
  alerts = open_alert ∷ [];
  notifications = [];
  audit = [];
  agents = front_agent ∷ [];
}

abbrev windows : Windows
windows = record { event_days = 1; alert_days = 1; notification_days = 1; audit_days = 1 }

abbrev same_hash : String → String
same_hash s = s

abbrev rested : World
rested = record { history = opened ∷ []; reaped = λ id. false; store = store; clock = 0 }

-- Two days later the event is counted and deleted.
abbrev swept_world : World
swept_world = after_sweep list_db same_hash list_sql settings windows 172800000 rested

swept_world-WorldReached : WorldReached list_db same_hash list_sql settings windows swept_world
swept_world-WorldReached = swept rested 172800000 (fresh store 0 refl) (omega arith)

reached-known_example :
    known opened_bucket swept_world.store ≡ count (is_in opened_bucket) swept_world.history
unfolding run roll_up_events reap_ended_sessions is_gone is_ended any select
reached-known_example =
    reached-known list_db same_hash list_sql settings windows swept_world opened_bucket
      swept_world-WorldReached refl

counted_once-IsWhole : IsWhole (next_hour (counted_once ∷ []))
unfolding next_hour start_of_hour
counted_once-IsWhole = refl

abbrev later : Event
later = record opened { created_at = 3600000 }

later-inside :
    any
      (in_window
        (next_hour (counted_once ∷ []))
        (window_end (next_hour (counted_once ∷ [])) (start_of_hour 7200000)))
      (later ∷ [])
    ≡ true
unfolding any in_window next_hour window_end start_of_hour
later-inside = refl

-- An event after a silence of 100 days.
abbrev late : Event
late = record opened { created_at = 8640000000 }

late-outside :
    any
      (in_window
        (next_hour (counted_once ∷ []))
        (next_hour (counted_once ∷ []) + max_rollup_hours_per_sweep * hour_ms))
      (late ∷ [])
    ≡ false
unfolding any in_window next_hour
late-outside = refl

long_after :
    next_hour (counted_once ∷ []) + max_rollup_hours_per_sweep * hour_ms < start_of_hour 9000000000
unfolding next_hour start_of_hour
long_after = omega arith

roll_up_events_stalls_example : roll_up_events 9000000000 (late ∷ []) (counted_once ∷ []) ≡ record {
  rollups = counted_once ∷ [];
  buckets = 0;
  rolled_through = next_hour (counted_once ∷ []) + max_rollup_hours_per_sweep * hour_ms;
  caught_up = false;
}
roll_up_events_stalls_example =
    roll_up_events_stalls 9000000000 (late ∷ []) counted_once [] late-outside long_after

unread-IsWhole : IsWhole (next_hour store.rollups)
unfolding next_hour start_of_hour
unread-IsWhole = refl

swept_run-done :
    (run list_db same_hash list_sql settings windows 172800000 store).1.more_remaining ≡ false
unfolding run roll_up_events roll_up_from start_from oldest start_of_hour window_end groups
    add_to_groups bucket_of in_window select prune_events prune_alerts prune_notifications
    prune_audit delete_in_batches delete_from drop_first is_old_event is_old_alert
    is_old_notification
swept_run-done = refl

run_complete_example :
    ((b : Bucket)
      → b.hour < start_of_hour 172800000
      → counted b (run list_db same_hash list_sql settings windows 172800000 store).0.rollups
        ≡ known b store)
    × (count
          (is_old_event list_sql settings 172800000 1 (start_of_hour 172800000))
          (run list_db same_hash list_sql settings windows 172800000 store).0.events
        ≡ 0)
    × (count
          (is_old_alert list_sql settings 172800000 1)
          (run list_db same_hash list_sql settings windows 172800000 store).0.alerts
        ≡ 0)
    × (count
          (is_old_notification list_sql settings 172800000 1)
          (run list_db same_hash list_sql settings windows 172800000 store).0.notifications
        ≡ 0)
    × (count
          (λ r. ltb (r.at + 1 * day_ms) 172800000)
          (run list_db same_hash list_sql settings windows 172800000 store).0.audit
        ≡ 0)
run_complete_example =
    run_complete list_db same_hash list_sql settings windows 172800000 store (omega arith)
      (omega arith) (omega arith) (omega arith) unread-IsWhole swept_run-done

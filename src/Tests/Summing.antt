-- ===== src/Tests/Summing.antt =====
-- A report at a concrete history, one counted hour and one event that is not counted yet; and the
-- command for a door whose name has a quote.
use project.Base.{eq_string, String, count, if◌then◌else◌, ltb, refl, some, ℕ, ◌≡◌}
use project.Contracts.Modes.{door_opened}
use project.Dashboard.AgentCommand.{bash, quote}
use project.Dashboard.AgentCommandQuoted.{is_plain, read_word, read_word-quote}
use project.Hub.{Event}
use project.Maintenance.RollUp.{EventRollup}

abbrev opened_event : Event
opened_event = record {
  id = "e1";
  agent_id = "door-01";
  type = door_opened;
  metadata = "{}";
  occurred_at = 90000000;
  created_at = 90000000;
}

abbrev counted_hour : EventRollup
counted_hour = record {
  bucket = record { hour = 3600000; agent_id = "door-01"; type = door_opened };
  count = 3;
}

abbrev day_name : ℕ → String
day_name t = if ltb t 86400000 then "1970-01-01" else "1970-01-02"

read_word-quote_example : read_word bash (quote bash "Anna's door") ≡ some "Anna's door"
unfolding is_plain
read_word-quote_example = read_word-quote bash "Anna's door" refl

-- ===== src/Mqtt/Topic.antt =====
-- hub/src/mqtt/mqtt-ingest.service.ts: the topic's expression,
-- `/^cpe310\/agents\/([^/]+)\/(events|heartbeat)$/`.
use Prim.Native.Char.{Char, code}
use project.Base.{
  List, Option, String, [], eq_option, eq_string, eq_ℕ, if◌then◌else◌, none, some, ◌&&◌, ◌==◌, ◌∷◌,
}

pub data TopicKind : Type 0 where
  event_topic heartbeat_topic : TopicKind

-- The pieces between the slashes.
unfoldable pub segments : String → List String
segments String.[] = "" ∷ []
segments (String.◌∷◌ c s) = let rest = segments s in if code c == 47 then "" ∷ rest else grow c rest
  where
    grow : Char → List String → List String
    grow c [] = []
    grow c (s ∷ ss) = String.◌∷◌ c s ∷ ss

kind_of : String → Option TopicKind
kind_of s =
    if s == "events"
    then some event_topic
    else if s == "heartbeat"
    then some heartbeat_topic
    else none

matched : String → Option TopicKind → Option (String × TopicKind)
matched id none = none
matched id (some kind) = if id == "" then none else some (id, kind)

match_segments : List String → Option (String × TopicKind)
unfolding kind_of matched
match_segments (root ∷ agents ∷ id ∷ kind ∷ []) =
    if root == "cpe310" && agents == "agents" then matched id (kind_of kind) else none
match_segments other_segments = none

unfoldable pub match_topic : String → Option (String × TopicKind)
unfolding match_segments segments
match_topic topic = match_segments (segments topic)

-- ===== src/Tests/Runtime.antt =====
-- A concrete history of the write-behind buffer, and the witnesses of the theorems on the runtime.
use sentinel_linux.Prelude.{
  ℕ, ◌+◌, ◌-◌, ◌≡◌, refl, true, false, Option, none, some, [], ◌∷◌, length, String, min,
}
use sentinel_linux.Prelude.Eq.{text_key}
use sentinel_linux.Dict
use sentinel_linux.Detection.Value.{str, RuleValue}
use sentinel_linux.Detection.Schema.{Rule, match_field, startswith, any_of, cons, nil}
use sentinel_linux.Runtime.Buffer.{buffer_event, discard_pending}
use sentinel_linux.Runtime.Buffer.Sides.{Sound}
use sentinel_linux.Runtime.Buffer.Steps.{
  World, History, begins, goes_on, consume, begin, events_of, alerts_of,
}
use sentinel_linux.Runtime.Buffer.Conservation.{History-Sound}
use sentinel_linux.Runtime.Buffer.Bounds.{shutdown_accounts}
use sentinel_linux.Runtime.Flusher.{waits}
use sentinel_linux.Runtime.Retention.{prune_batch}
use sentinel_linux.Runtime.Consume.{consume as consume_event}
use sentinel_linux.Runtime.Paths.{unwatched_rule_paths}

abbrev one_in : World String String
one_in = record {
  buffer = buffer_event "e1" ("a1" ∷ []) (begin 1 2).buffer;
  store = record { events = []; alerts = [] };
  consumed_events = 0 + 1;
  consumed_alerts = 0 + 1;
}

one_in-History : History (begin 1 2) one_in
one_in-History = goes_on begins (consume "e1" ("a1" ∷ []))

History-Sound_example :
    Sound 1 one_in.buffer.next_id [] (events_of one_in.buffer.writer) one_in.buffer.events
    × Sound 1 one_in.buffer.next_id [] (alerts_of one_in.buffer.writer) one_in.buffer.alerts
History-Sound_example = History-Sound 1 2 one_in-History

shutdown_accounts_example :
    (1 ≡ 0 + (discard_pending one_in.buffer).events.unpersisted)
    × (1 ≡ 0 + (discard_pending one_in.buffer).alerts.unpersisted)
unfolding buffer_event
shutdown_accounts_example = shutdown_accounts 1 2 one_in-History refl

-- Two events with two alerts each: the cap of two holds for the events, not for the alerts.
alerts_over_cap :
    length
      (buffer_event {E = String} {A = String} "e2"
        ("a3" ∷ "a4" ∷ [])
        (buffer_event "e1" ("a1" ∷ "a2" ∷ []) (begin 1 2).buffer)).alerts.pending
    ≡ 4
unfolding buffer_event
alerts_over_cap = refl

-- With a flush interval of a minute the wait after a failure is half of it.
shorter_after_failure : waits 60000000 60000000 (false ∷ []) ≡ 30000000 ∷ []
unfolding waits
shorter_after_failure = refl

-- A database of two counts of expired rows.
abbrev delete : ℕ × ℕ → Option ((ℕ × ℕ) × ℕ × ℕ)
delete (events, alerts) =
    some
      ((events - prune_batch, alerts - prune_batch), min prune_batch events, min prune_batch alerts)

-- A rule with two branches, of which one is watched, is reported.
abbrev either : Rule
either = record {
  id = "tampering";
  title = "Tampering";
  severity = 5;
  attack = "T1070" ∷ [];
  nist_csf = "DE.CM" ∷ [];
  d3fend = [];
  condition = any_of (
      cons (match_field "file.path" startswith (RuleValue.scalar (str "/etc/")))
        (cons (match_field "file.path" startswith (RuleValue.scalar (str "/var/log/"))) nil));
  throttle = none;
  enabled = true;
}

reported_though_watched :
    unwatched_rule_paths (either ∷ []) ("/etc" ∷ []) ≡ ("tampering", "/var/log/" ∷ []) ∷ []
unfolding unwatched_rule_paths Dict.set
reported_though_watched = refl

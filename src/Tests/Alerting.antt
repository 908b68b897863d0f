-- ===== src/Tests/Alerting.antt =====
-- A concrete manager with one lane, and the witnesses of the theorems on alerting.
use sentinel_linux.Prelude.{ℕ, ◌+◌, ◌≡◌, refl, true, false, not, none, some, [], ◌∷◌, arith, String}
use sentinel_linux.Prelude.Eq.{text_key}
use sentinel_linux.Prelude.Text.{decimal}
use sentinel_linux.Dict
use sentinel_linux.SlidingWindow.{trim}
use sentinel_linux.SlidingWindow.Limiter.{admit}
use sentinel_linux.Pipeline.Dedup.{seen}
use sentinel_linux.Detection.Engine.{Detection}
use sentinel_linux.Alerting.Model.{Alert, from_detection}
use sentinel_linux.Alerting.Lanes.{SinkLane, lane, offer, stop, begin_delivery}
use sentinel_linux.Alerting.Lanes.Accounting.{
  fresh, then_turn, offered, begun, Balanced, Lane-Balanced, stop_uncounted,
}
use sentinel_linux.Alerting.Manager.{AlertManager, process, is_throttled, throttle_for, init}
use sentinel_linux.Alerting.Manager.Counters.{Call, run, fresh_stored}

abbrev console : SinkLane
console = record {
  name = "console";
  min_severity = 0;
  maxsize = 2;
  queue = [];
  unfinished = 0;
  worker = false;
  delivering = none;
  delivered = 0;
  errors = 0;
  dropped = 0;
}

console_made : lane "console" 0 2 ≡ some console
unfolding lane
console_made = refl

abbrev pub manager : AlertManager
manager = record {
  min_severity = 3;
  dedup = record {
    ttl = 300;
    max_entries = 10;
    entries = [];
    hits = 0;
    misses = 0;
    evictions_ttl = 0;
    evictions_cap = 0;
  };
  throttle_max = 1;
  throttle_window = 60;
  rule_throttles = [];
  rule_hits = [];
  withheld = [];
  emitted = 0;
  suppressed_severity = 0;
  deduped = 0;
  throttled = 0;
  lanes = console ∷ [];
}

manager_made : init (console ∷ []) 3 300 10 1 60 [] ≡ some manager
unfolding init
manager_made = refl

abbrev detection : String → Detection
detection id = record {
  rule_id = "ssh-brute-force";
  title = "SSH brute force";
  severity = 6;
  attack = "T1110" ∷ [];
  nist_csf = "DE.CM" ∷ [];
  d3fend = [];
  event_id = id;
  host = "web1";
  timestamp = 5000000;
  message = "Failed password";
}

abbrev call : ℕ → String → Call
call now id = record { seen_at = now; hit_at = now; detection = detection id }

abbrev alert : Alert
alert = from_detection (detection "e1")

-- One alert is sent, the next withheld, and the third, after the window, tells of it.
third_summary :
    (run (call 10 "e1" ∷ call 20 "e2" ∷ call 90 "e3" ∷ []) manager).1
    ≡ some (from_detection (detection "e1"))
      ∷ some (record (from_detection (detection "e2")) { notified = false })
      ∷ some (record (from_detection (detection "e3")) {
        summary = "Failed password [+1 more alert(s) from this rule withheld by the throttle]";
      })
      ∷ []
unfolding run process decimal is_throttled admit trim from_detection throttle_for Dict.get Dict.set
    Dict.has Dict.remove seen
third_summary = refl

Lane-Balanced_example : Balanced 1 (offer alert console)
Lane-Balanced_example = Lane-Balanced "console" 0 2 console_made (then_turn fresh (offered alert))

abbrev busy : SinkLane
busy = record {
  name = "console";
  min_severity = 0;
  maxsize = 2;
  queue = [];
  unfinished = 1;
  worker = true;
  delivering = some alert;
  delivered = 0;
  errors = 0;
  dropped = 0;
}

busy_begun : begin_delivery (offer alert console) ≡ some busy
unfolding begin_delivery offer
busy_begun = refl

-- The alert under way at `stop` is in none of the counters.
stop_uncounted_example :
    1 ≡ (stop busy).0.delivered + (stop busy).0.errors + (stop busy).0.dropped + 1
stop_uncounted_example =
    stop_uncounted "console" 0 2 console_made
      (then_turn (then_turn fresh (offered alert)) (begun busy_begun))

fresh_stored_example :
    (a : Alert) × ((process 10 10 (detection "e1") manager).1 ≡ some a)
    × (a.event_id ≡ "e1")
    × (a.rule_id ≡ "ssh-brute-force")
    × (a.severity ≡ 6)
    × (a.notified ≡ not (is_throttled 10 "ssh-brute-force" manager).1)
unfolding seen Dict.has Dict.get
fresh_stored_example = fresh_stored 10 10 (detection "e1") manager (omega arith) refl

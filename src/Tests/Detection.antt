-- ===== src/Tests/Detection.antt =====
-- Concrete rules and events, and the witnesses of the detection theorems.
use sentinel_linux.Prelude.{
  ◌≡◌, List, inr, refl, Bool, true, false, none, some, [], ◌∷◌, arith, String,
}
use sentinel_linux.Prelude.Eq.{text_key, pair_key, pair_same_iff}
use sentinel_linux.Dict
use sentinel_linux.SlidingWindow.{trim}
use sentinel_linux.Events.{Event, event, authentication, failure}
use sentinel_linux.Detection.Value.{
  Value, str, dict, entry, no_fields, RuleValue, get_field, value_eq,
}
use sentinel_linux.Detection.Schema.{
  Rule, Condition, match_field, equals, regex, all_of, cons, nil, threshold, make,
}
use sentinel_linux.Detection.Evaluator.{
  Search, not_found, timed_out, answer, incomplete, evaluate, resolve_field, operator,
}
use sentinel_linux.Detection.Actions.{required_actions, allows}
use sentinel_linux.Detection.Checks.{Kind, textual, valid, check_condition}
use sentinel_linux.Detection.Checks.Accepted.{Accepted}
use sentinel_linux.Detection.Engine
use sentinel_linux.Detection.Engine.{Environment, DetectionEngine, Address, threshold_fires}
use sentinel_linux.Detection.Engine.Thresholds.{hit, match_isolated}
use sentinel_linux.Detection.Engine.Bursts.{burst, quiet}

abbrev pub login : Event
login = record {
  timestamp = 5000000;
  meta = record {
    id = "id1";
    kind = event;
    category = authentication;
    action = "ssh_login_failed";
    outcome = failure;
    severity = 4;
  };
  host = record { name = "web1" };
  source = record { ip = some "10.0.0.9"; port = none; user = none };
  destination = record { ip = none; port = none; user = none };
  process = record { pid = none; ppid = none; name = none; executable = none; command_line = none };
  file = none;
  message = "Failed password";
}

-- The part of the view that the rules below read.
abbrev view_of : Event → Value
view_of e = dict (
    entry "event" (dict (entry "action" (Value.scalar (str e.meta.action)) no_fields))
      (entry "source" (dict (entry "ip" (Value.scalar (str "10.0.0.9")) no_fields)) no_fields))

abbrev pub env : Environment
env = record {
  search = λ pattern window. not_found;
  model_dump = view_of;
  py_str = λ v. "";
  ip_address = λ s. none;
  v4_text = λ n. "";
  v6_network_text = λ n. "";
}

abbrev failed_login : Condition
failed_login = match_field "event.action" equals (RuleValue.scalar (str "ssh_login_failed"))

abbrev brute_force : Rule
brute_force = record {
  id = "ssh-brute-force";
  title = "SSH brute force";
  severity = 6;
  attack = "T1110" ∷ [];
  nist_csf = "DE.CM" ∷ [];
  d3fend = [];
  condition = threshold (make failed_login 60 2 "source.ip");
  throttle = none;
  enabled = true;
}

abbrev pub engine : DetectionEngine
engine = Engine.init (brute_force ∷ []) 100

failed_login_holds : evaluate env.search failed_login (view_of login) ≡ answer true
unfolding evaluate operator resolve_field get_field value_eq
failed_login_holds = refl

grouped : resolve_field "source.ip" (view_of login) ≡ some (Value.scalar (str "10.0.0.9"))
unfolding resolve_field get_field
grouped = refl

match_isolated_example :
    (eng' : DetectionEngine) × (fired : Bool) × (threshold_fires env "ssh-brute-force"
        (make failed_login 60 2 "source.ip")
        login
        (view_of login)
        engine
      ≡ some (eng', fired))
    × (Dict.get ("ssh-brute-force", "10.0.0.8") eng'.windows
        ≡ Dict.get ("ssh-brute-force", "10.0.0.8") engine.windows)
unfolding Engine.group_key Engine.init
match_isolated_example =
    match_isolated env "ssh-brute-force" login (view_of login) engine failed_login 60 2 "source.ip"
      (Value.scalar (str "10.0.0.9")) failed_login_holds grouped ("ssh-brute-force", "10.0.0.8")
      (λ e.
        ground
          (arith, pair_same_iff ("ssh-brute-force", "10.0.0.9") ("ssh-brute-force", "10.0.0.8")))
      (inr (omega arith))

third_fires : (hit 60 3 50 (burst 60 3 quiet (10 ∷ 20 ∷ [])).window).1 ≡ true
unfolding burst trim
third_fires = refl

-- A regex that runs out of time makes its rule fire; the index leaves the rule out for an action
-- that it could never match.
abbrev slow : String → String → Search
slow pattern window = timed_out

abbrev padded : Condition
padded = all_of (
    cons (match_field "source.ip" regex (RuleValue.scalar (str "x")))
      (cons (match_field "event.action" equals (RuleValue.scalar (str "process_started"))) nil))

undecided_and_skipped :
    (evaluate slow padded (view_of login) ≡ incomplete)
    × (allows (required_actions padded) "ssh_login_failed" ≡ false)
unfolding evaluate operator resolve_field get_field required_actions allows
undecided_and_skipped = (refl, refl)

abbrev event_fields : Dict.Dict String (List Kind)
event_fields = ("event.action", textual ∷ []) ∷ ("source.ip", textual ∷ []) ∷ []

brute_force_accepted : check_condition event_fields brute_force.condition ≡ valid
unfolding check_condition Dict.has Dict.get
brute_force_accepted = refl

-- ===== src/Normalizer.antt =====
-- src/sentinel/normalizer/{mapper,enrich}.py: the mapping of raw records to events. The
-- pydantic models check more than the functions here read: whether they accept an event is a
-- parameter, `valid_event`, and so are the digest SHA-256 and the local host name. `str(n)` of a
-- number is `decimal`.
pub mod Laws
use Prim.Native.Char.{code}
use text.Mathlib.Text.{◌==◌ as str_eq}
use sentinel_linux.Prelude.{
  ℕ, ◌+◌, Bool, true, false, Option, none, some, List, [], ◌∷◌, min, max, if◌then◌else◌, String,
  eqb, leb, any, ◌&&◌, ◌||◌,
}
use sentinel_linux.Prelude.Text.{text_append, text_join, decimal}
use sentinel_linux.Prelude.Words.{is_space, strip_end}
use sentinel_linux.Events.{
  Event, EventMeta, EventKind, EventCategory, EventOutcome, Endpoint, Process, File, Host, event,
  authentication, process, file, network, success, failure, unknown,
}
use sentinel_linux.RawEvents.{
  Common, RawAuthEvent, RawProcessEvent, RawFileEvent, RawNetworkEvent, RawEvent, auth_event,
  process_event, file_event, network_event,
}
use sentinel_linux.Events
use sentinel_linux.Events.Ids.{compute_id}

-- `clamp_severity`; a raw severity is never negative.
abbrev pub clamp_severity : ℕ → ℕ
clamp_severity severity = max 0 (min 7 severity)

-- `value or None` and `value or ""`
abbrev pub or_none : String → Option String
or_none s = if str_eq s "" then none else some s

abbrev pub or_text : Option String → String
or_text none = ""
or_text (some s) = s

-- `EventOutcome(raw.outcome)`; `none` is the ValueError.
abbrev pub outcome_of : String → Option EventOutcome
outcome_of s =
    if str_eq s "success"
    then some success
    else if str_eq s "failure"
    then some failure
    else if str_eq s "unknown"
    then some unknown
    else none

abbrev no_endpoint : Endpoint
no_endpoint = record { ip = none; port = none; user = none }

abbrev no_process : Process
no_process = record { pid = none; ppid = none; name = none; executable = none; command_line = none }

abbrev concat : List String → String
concat = text_join ""

abbrev pub is_listener : RawNetworkEvent → Bool
is_listener raw = str_eq raw.state "LISTEN"

-- The parts that each mapper passes to `Event.compute_id`.
abbrev pub auth_identity : RawAuthEvent → List String
auth_identity raw =
    raw.syslog_ts
    ∷ raw.common.host
    ∷ raw.pid
    ∷ raw.common.action
    ∷ raw.user
    ∷ raw.ip
    ∷ decimal raw.port
    ∷ decimal raw.occurrence
    ∷ []

abbrev pub process_identity : RawProcessEvent → List String
process_identity raw =
    decimal raw.pid
    ∷ decimal raw.starttime
    ∷ raw.common.action
    ∷ or_text raw.executable
    ∷ or_text raw.cmdline
    ∷ []

abbrev pub file_identity : RawFileEvent → List String
file_identity raw = raw.path ∷ raw.common.action ∷ raw.id_seed ∷ []

abbrev pub network_identity : RawNetworkEvent → List String
network_identity raw =
    raw.proto
    ∷ raw.local_ip
    ∷ decimal raw.local_port
    ∷ raw.remote_ip
    ∷ decimal raw.remote_port
    ∷ decimal raw.inode
    ∷ raw.common.action
    ∷ []

module _ (sha256 : String → String) (local_hostname : String) where
  -- `resolve_host`
  abbrev resolve_host : String → Host
  resolve_host name = record { name = if str_eq name "" then local_hostname else name }

  abbrev meta : List String → Common → EventCategory → EventOutcome → EventMeta
  meta identity common category outcome = record {
    id = compute_id sha256 identity;
    kind = event;
    category = category;
    action = common.action;
    outcome = outcome;
    severity = clamp_severity common.severity;
  }

  -- `_map_auth`; an unknown outcome is a ValueError.
  abbrev with_outcome : RawAuthEvent → Option EventOutcome → Option Event
  with_outcome raw none = none
  with_outcome raw (some outcome) = some (record {
    timestamp = raw.common.occurred_at;
    meta = meta (auth_identity raw) raw.common authentication outcome;
    host = resolve_host raw.common.host;
    source = record { ip = some raw.ip; port = some raw.port; user = some raw.user };
    destination = no_endpoint;
    process = no_process;
    file = none;
    message = raw.message;
  })

  unfoldable pub map_auth : RawAuthEvent → Option Event
  map_auth raw = with_outcome raw (outcome_of raw.outcome)

  unfoldable pub map_process : RawProcessEvent → Event
  map_process raw = record {
    timestamp = raw.common.occurred_at;
    meta = meta (process_identity raw) raw.common EventCategory.process success;
    host = resolve_host raw.common.host;
    source = no_endpoint;
    destination = no_endpoint;
    process = record {
      pid = some raw.pid;
      ppid = some raw.ppid;
      name = or_none raw.comm;
      executable = raw.executable;
      command_line = raw.cmdline;
    };
    file = none;
    message =
        strip_end (concat (raw.common.action ∷ ": pid=" ∷ decimal raw.pid ∷ " " ∷ raw.comm ∷ []));
  }

  unfoldable pub map_file : RawFileEvent → Event
  map_file raw = record {
    timestamp = raw.common.occurred_at;
    meta = meta (file_identity raw) raw.common EventCategory.file success;
    host = resolve_host raw.common.host;
    source = no_endpoint;
    destination = no_endpoint;
    process = no_process;
    file = some (record {
      path = raw.path;
      size = some raw.size;
      mode = some raw.mode;
      sha256 = raw.sha256;
    });
    message = concat (raw.common.action ∷ ": " ∷ raw.path ∷ []);
  }

  abbrev address : String → ℕ → String
  address ip port = concat (ip ∷ ":" ∷ decimal port ∷ [])

  unfoldable pub map_network : RawNetworkEvent → Event
  map_network raw = record {
    timestamp = raw.common.occurred_at;
    meta = meta (network_identity raw) raw.common EventCategory.network success;
    host = resolve_host raw.common.host;
    source = record { ip = some raw.local_ip; port = some raw.local_port; user = none };
    destination =
        if is_listener raw
        then no_endpoint
        else record { ip = some raw.remote_ip; port = some raw.remote_port; user = none };
    process = no_process;
    file = none;
    message = concat (
        raw.common.action
        ∷ ": "
        ∷ raw.proto
        ∷ " "
        ∷ address raw.local_ip raw.local_port
        ∷ (if is_listener raw
            then ""
            else text_append " -> " (address raw.remote_ip raw.remote_port))
        ∷ " (uid="
        ∷ decimal raw.uid
        ∷ ")"
        ∷ []);
  }

  -- `map_raw`
  unfoldable pub map_raw : RawEvent → Option Event
  unfolding map_auth map_process map_file map_network
  map_raw (auth_event raw) = map_auth raw
  map_raw (process_event raw) = some (map_process raw)
  map_raw (file_event raw) = some (map_file raw)
  map_raw (network_event raw) = some (map_network raw)

-- `Normalizer`
pub record Normalizer : Type 0 where
  pub dead_letters : ℕ
  pub normalized : ℕ

abbrev pub deliver : (Event → Bool) → Option Event → Normalizer → Normalizer × Option Event
deliver valid_event none n = (record n { dead_letters = n.dead_letters + 1 }, none)
deliver valid_event (some e) n =
    if valid_event e
    then (record n { normalized = n.normalized + 1 }, some e)
    else (record n { dead_letters = n.dead_letters + 1 }, none)

-- `normalize`
unfoldable pub normalize :
    (String → String) → String → (Event → Bool) → RawEvent → Normalizer → Normalizer × Option Event
unfolding map_raw
normalize sha256 local_hostname valid_event raw n =
    deliver valid_event (map_raw sha256 local_hostname raw) n

-- `build`: fields that the raw model rejects are a dead letter; `none` is the rejection.
unfoldable pub build {ℓ} : {A : Type ℓ} → Option A → Normalizer → Normalizer × Option A
build none n = (record n { dead_letters = n.dead_letters + 1 }, none)
build (some raw) n = (n, some raw)

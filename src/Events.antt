-- ===== src/Events.antt =====
-- src/sentinel/events.py: the ECS-aligned event. The optional parts that no function of the model
-- reads are kept as fields; a timestamp is in microseconds, and the validators that look at more
-- (a time zone, the digits of an id) are functions of the raw value.
pub mod Ids
use sentinel_linux.Prelude.{ℕ, Option, none, some, String, List, [], ◌∷◌}
use sentinel_linux.Prelude.Int.{ℤ}

pub data EventKind : Type 0 where
  event alert metric state signal : EventKind

pub data EventCategory : Type 0 where
  authentication process file network intrusion_detection host configuration : EventCategory

pub data EventOutcome : Type 0 where
  success failure unknown : EventOutcome

pub record EventMeta : Type 0 where
  pub id : String
  pub kind : EventKind
  pub category : EventCategory
  pub action : String
  pub outcome : EventOutcome
  pub severity : ℕ

pub record Host : Type 0 where
  pub name : String

-- `Source` and `Destination` have the same fields.
pub record Endpoint : Type 0 where
  pub ip : Option String
  pub port : Option ℕ
  pub user : Option String

pub record Process : Type 0 where
  pub pid : Option ℕ
  pub ppid : Option ℕ
  pub name : Option String
  pub executable : Option String
  pub command_line : Option String

pub record File : Type 0 where
  pub path : String
  pub size : Option ℕ
  pub mode : Option String
  pub sha256 : Option String

pub record Event : Type 0 where
  pub timestamp : ℕ
  pub meta : EventMeta
  pub host : Host
  pub source : Endpoint
  pub destination : Endpoint
  pub process : Process
  pub file : Option File
  pub message : String

-- `Event.dedup_key`
unfoldable pub dedup_key : Event → String
dedup_key e = e.meta.id

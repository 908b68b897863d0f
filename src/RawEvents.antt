-- ===== src/RawEvents.antt =====
-- src/sentinel/normalizer/raw.py: the raw records of the collectors, before normalization.
use sentinel_linux.Prelude.{ℕ, ◌-◌, ◌^◌, Bool, true, Option, none, some, String, leb, ◌&&◌}
use sentinel_linux.Prelude.Text.{text_length}

-- The fields that all raw records share, with the severity and the action.
pub record Common : Type 0 where
  pub occurred_at : ℕ
  pub host : String
  pub action : String
  pub severity : ℕ

pub record RawAuthEvent : Type 0 where
  pub common : Common
  pub syslog_ts : String
  pub pid : String
  pub outcome : String
  pub user : String
  pub ip : String
  pub port : ℕ
  pub occurrence : ℕ
  pub message : String

pub record RawProcessEvent : Type 0 where
  pub common : Common
  pub pid : ℕ
  pub ppid : ℕ
  pub starttime : ℕ
  pub comm : String
  pub cmdline : Option String
  pub executable : Option String

pub record RawFileEvent : Type 0 where
  pub common : Common
  pub path : String
  pub size : ℕ
  pub mode : String
  pub sha256 : Option String
  pub id_seed : String

pub record RawNetworkEvent : Type 0 where
  pub common : Common
  pub proto : String
  pub local_ip : String
  pub local_port : ℕ
  pub remote_ip : String
  pub remote_port : ℕ
  pub state : String
  pub uid : ℕ
  pub inode : ℕ

-- The union `RawEvent`.
pub data RawEvent : Type 0 where
  auth_event : RawAuthEvent → RawEvent
  process_event : RawProcessEvent → RawEvent
  file_event : RawFileEvent → RawEvent
  network_event : RawNetworkEvent → RawEvent

-- The limits that the models declare. Each record's host, action and severity are checked alike.
abbrev pub max_port : ℕ
max_port = 65535

abbrev pub max_command_line : ℕ
max_command_line = 10000

abbrev pub max_path : ℕ
max_path = 4096

abbrev pub max_pid : ℕ
max_pid = 2 ^ 31 - 1

abbrev pub within : ℕ → ℕ → String → Bool
within low high s = leb low (text_length s) && leb (text_length s) high

abbrev pub optional_within : ℕ → Option String → Bool
optional_within high none = true
optional_within high (some s) = within 0 high s

unfoldable pub valid_common : Common → Bool
valid_common c = within 1 253 c.host && within 1 200 c.action && leb c.severity 7

unfoldable pub valid_auth : RawAuthEvent → Bool
unfolding valid_common
valid_auth raw =
    valid_common raw.common
    && within 1 64 raw.syslog_ts
    && within 0 20 raw.pid
    && within 1 20 raw.outcome
    && within 1 256 raw.user
    && within 1 64 raw.ip
    && leb raw.port max_port
    && within 1 10000 raw.message

unfoldable pub valid_process : RawProcessEvent → Bool
unfolding valid_common
valid_process raw =
    valid_common raw.common
    && leb raw.pid max_pid
    && leb raw.ppid max_pid
    && within 0 256 raw.comm
    && optional_within max_command_line raw.cmdline
    && optional_within max_path raw.executable

unfoldable pub valid_file : RawFileEvent → Bool
unfolding valid_common
valid_file raw =
    valid_common raw.common
    && within 1 max_path raw.path
    && within 1 8 raw.mode
    && within 1 256 raw.id_seed

unfoldable pub valid_network : RawNetworkEvent → Bool
unfolding valid_common
valid_network raw =
    valid_common raw.common
    && within 1 8 raw.proto
    && within 1 64 raw.local_ip
    && leb raw.local_port max_port
    && within 1 64 raw.remote_ip
    && leb raw.remote_port max_port
    && within 1 20 raw.state

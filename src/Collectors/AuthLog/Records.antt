-- ===== src/Collectors/AuthLog/Records.antt =====
-- The records that one line of the auth log stands for: `_match_body` and `parse_auth_records` of
-- authlog.py. What the compiled regular expressions find in a text is a parameter, and so is what the
-- calendar makes of a timestamp (`none` is a field that is no timestamp).
pub mod Copies
use text.Mathlib.Text.{◌==◌ as str_eq}
use sentinel_linux.Prelude.{
  ℕ, zero, suc, ◌+◌, min, Bool, true, false, ◌||◌, not, Option, none, some, List, [], ◌∷◌,
  if◌then◌else◌, String, ltb,
}
use sentinel_linux.Prelude.Int.{ℤ, natural}
use sentinel_linux.Prelude.Text.{text_length}
use sentinel_linux.Prelude.Words.{int_of, strip_newlines}
use sentinel_linux.RawEvents.{RawAuthEvent, valid_auth}

abbrev pub max_line_chars : ℕ
max_line_chars = 8192

abbrev pub max_repeat : ℕ
max_repeat = 1000

-- The groups of the patterns.
pub record Login : Type 0 where
  pub invalid : Bool
  pub user : String
  pub ip : String
  pub port : String

pub record SyslogLine : Type 0 where
  pub bsd : Option String
  pub iso : String
  pub host : String
  pub proc : String
  pub pid : Option String
  pub msg : String

pub record Patterns : Type 0 where
  pub syslog : String → Option SyslogLine
  pub repeat : String → Option (ℕ × String)
  pub failed : String → Option Login
  pub accepted : String → Option Login
  pub invalid_user : String → Option Login
  pub bsd_time : String → Option ℕ
  pub iso_time : String → Option ℕ

-- `_Body`
pub record Body : Type 0 where
  pub user : String
  pub ip : String
  pub port : String
  pub action : String
  pub outcome : String
  pub severity : ℕ

abbrev failed_body : Login → ℕ → Body
failed_body m severity = record {
  user = m.user;
  ip = m.ip;
  port = m.port;
  action = "ssh_login_failed";
  outcome = "failure";
  severity = severity;
}

abbrev accepted_body : Login → Body
accepted_body m = record {
  user = m.user;
  ip = m.ip;
  port = m.port;
  action = "ssh_login_succeeded";
  outcome = "success";
  severity = 2;
}

-- `_match_body`: the patterns in turn.
abbrev pub body_of : Option Login → Option Login → Option Login → Option Body
body_of (some m) accepted invalid = some (failed_body m (if m.invalid then 5 else 4))
body_of none (some m) invalid = some (accepted_body m)
body_of none none (some m) = some (failed_body m 5)
body_of none none none = none

-- `{"occurrence": n} for n in range(count)`
unfoldable pub copies : ℕ → ℕ → RawAuthEvent → List RawAuthEvent
copies zero n first = []
copies (suc count) n first = record first { occurrence = n } ∷ copies count (n + 1) first

abbrev pub copies_of : ℕ → Option RawAuthEvent → List RawAuthEvent
copies_of count none = []
copies_of count (some first) = copies count 0 first

abbrev or_else : Option String → String → String
or_else none other = other
or_else (some s) other = if str_eq s "" then other else s

abbrev pub stamp_of : Option String → String → String
stamp_of none iso = iso
stamp_of (some bsd) iso = bsd

-- `RawAuthEvent(…)`: what it rejects is no record.
abbrev pub accept : RawAuthEvent → Option RawAuthEvent
accept raw = if valid_auth raw then some raw else none

abbrev pub of_port :
    Option ℕ → ℕ → Option String → SyslogLine → String → Body → String → Option RawAuthEvent
of_port none time host_override line ts body message = none
of_port (some port) time host_override line ts body message = accept (record {
  common = record {
    occurred_at = time;
    host = or_else host_override line.host;
    action = body.action;
    severity = body.severity;
  };
  syslog_ts = ts;
  pid = or_else line.pid "";
  outcome = body.outcome;
  user = body.user;
  ip = body.ip;
  port = port;
  occurrence = 0;
  message = message;
})

abbrev pub with_port :
    Option ℤ → ℕ → Option String → SyslogLine → String → Body → String → Option RawAuthEvent
with_port none time host_override line ts body message = none
with_port (some n) time host_override line ts body message =
    of_port (natural n) time host_override line ts body message

module _ (patterns : Patterns) (host_override : Option String) where
  unfoldable pub match_body : String → Option Body
  match_body msg = body_of (patterns.failed msg) (patterns.accepted msg) (patterns.invalid_user msg)

  abbrev pub time_of : SyslogLine → Option ℕ
  time_of line = elim line.bsd [
    | some ts ↦ patterns.bsd_time ts
    | none ↦ patterns.iso_time line.iso
  ]

  abbrev pub records_of : SyslogLine → String → ℕ → Option Body → Option ℕ → List RawAuthEvent
  records_of line message count none time = []
  records_of line message count (some body) none = []
  records_of line message count (some body) (some time) = copies_of count (
      with_port (int_of body.port) time host_override line (stamp_of line.bsd line.iso) body
        message)

  abbrev pub is_sshd : String → Bool
  is_sshd proc = str_eq proc "sshd" || str_eq proc "sshd-session"

  abbrev pub repeated : SyslogLine → Option (ℕ × String) → List RawAuthEvent
  repeated line none = records_of line line.msg 1 (match_body line.msg) (time_of line)
  repeated line (some (count, inner)) =
      records_of line inner (min count max_repeat) (match_body inner) (time_of line)

  abbrev pub records_in : Option SyslogLine → List RawAuthEvent
  records_in none = []
  records_in (some line) =
      if is_sshd line.proc then repeated line (patterns.repeat line.msg) else []

  -- `parse_auth_records`
  unfoldable pub parse_auth_records : String → List RawAuthEvent
  unfolding match_body copies valid_auth int_of
  parse_auth_records line =
      if ltb max_line_chars (text_length line)
      then []
      else records_in (patterns.syslog (strip_newlines line))

-- ===== src/Collectors/AuthLog/Numbering.antt =====
-- `_number` of authlog.py: identical records of one second are told apart by their occurrence.
pub mod Distinct
pub mod Collide
use text.Mathlib.Text.{◌==◌ as str_eq}
use text.Mathlib.TextEquality.{eq_iff}
use sentinel_linux.Prelude.{
  ℕ, ◌+◌, ◌≡◌, ◌↔◌, Bool, true, false, ◌&&◌, Option, none, some, List, [], ◌∷◌, map, length,
  if◌then◌else◌, String, eqb, arith,
}
use sentinel_linux.Prelude.Eq.{KeyEq}
use sentinel_linux.Dict.{Dict, get, set}
use sentinel_linux.RawEvents.{RawAuthEvent}

-- The key of `_seen`.
pub record AuthKey : Type 0 where
  pub host : String
  pub pid : String
  pub message : String
  pub action : String

abbrev pub same_auth : AuthKey → AuthKey → Bool
same_auth a b =
    str_eq a.host b.host
    && str_eq a.pid b.pid
    && str_eq a.message b.message
    && str_eq a.action b.action

pub same_auth_iff : (a b : AuthKey) → (same_auth a b ≡ true) ↔ (a ≡ b)
same_auth_iff a b = ground (
  arith,
  eq_iff a.host b.host,
  eq_iff a.pid b.pid,
  eq_iff a.message b.message,
  eq_iff a.action b.action,
)

instance abbrev pub auth_key : KeyEq AuthKey
auth_key = record { same = same_auth; same_iff = same_auth_iff }

abbrev pub key_of : RawAuthEvent → AuthKey
key_of raw = record {
  host = raw.common.host;
  pid = raw.pid;
  message = raw.message;
  action = raw.common.action;
}

-- `_seen_ts` and `_seen`
pub record Numbering : Type 0 where
  pub seen_ts : String
  pub seen : Dict AuthKey ℕ

abbrev pub count_or_zero : Option ℕ → ℕ
count_or_zero none = 0
count_or_zero (some n) = n

abbrev pub at_second : String → Numbering → Numbering
at_second ts st = if str_eq ts st.seen_ts then st else record { seen_ts = ts; seen = [] }

-- `r.model_copy(update={"occurrence": base + r.occurrence})`
abbrev pub offset : ℕ → RawAuthEvent → RawAuthEvent
offset base raw = record raw { occurrence = base + raw.occurrence }

-- The records of one line, numbered from what its key has seen.
abbrev pub number_from : AuthKey → ℕ → List RawAuthEvent → Numbering → Numbering × List RawAuthEvent
number_from key base records st = (
  record st { seen = set key (base + length records) st.seen },
  if eqb base 0 then records else map (offset base) records,
)

-- `_number`
unfoldable pub number : List RawAuthEvent → Numbering → Numbering × List RawAuthEvent
unfolding get set
number [] st = (st, [])
number (first ∷ rest) st =
    let now = at_second first.syslog_ts st in
    let key = key_of first in number_from key (count_or_zero (get key now.seen)) (first ∷ rest) now

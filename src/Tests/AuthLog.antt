-- ===== src/Tests/AuthLog.antt =====
-- A concrete auth log, and the witnesses of the theorems on the auth log collector.
use sentinel_linux.Prelude.{
  ℕ, ◌≡◌, ◌≢◌, refl, sym, All, true, false, none, some, List, [], ◌∷◌, ◌++◌, map, length, keep,
  if◌then◌else◌, eqb, arith,
}
use text.Mathlib.TextEquality.{eq_iff}
use sentinel_linux.Dict.{get}
use sentinel_linux.RawEvents.{RawAuthEvent}
use sentinel_linux.Normalizer.{auth_identity}
use sentinel_linux.Collectors.AuthLog.Lines.{split_lines}
use sentinel_linux.Collectors.AuthLog.Lines.Chunks.{
  feed, feed-split_lines, is_short, joined, start, kept,
}
use sentinel_linux.Collectors.AuthLog.Tail.{Files, Tail, readable, read_new_lines}
use sentinel_linux.Collectors.AuthLog.Tail.Rotation.{Rotated, read_new_lines-Rotated}
use sentinel_linux.Collectors.AuthLog.Records.{
  Patterns, Login, SyslogLine, max_repeat, parse_auth_records,
}
use sentinel_linux.Collectors.AuthLog.Records.Copies.{Accepted, parse_auth_records-Accepted}
use sentinel_linux.Collectors.AuthLog.Numbering.{Numbering, number}
use sentinel_linux.Collectors.AuthLog.Numbering.Distinct.{
  Above, Apart, Line, number_all, number_all-Apart,
}
use sentinel_linux.Collectors.AuthLog.Numbering.Collide.{number-collides}

-- "ab", newline, "c" and "d", newline, in three chunks.
abbrev chunks : List (List ℕ)
chunks = (97 ∷ []) ∷ (98 ∷ 10 ∷ 99 ∷ []) ∷ (100 ∷ 10 ∷ []) ∷ []

fed : (feed chunks start).1 ≡ (97 ∷ 98 ∷ []) ∷ (99 ∷ 100 ∷ []) ∷ []
unfolding feed
fed = refl

feed-split_lines_example :
    keep is_short (feed chunks start).1 ≡ keep is_short (split_lines (joined chunks)).0
feed-split_lines_example = feed-split_lines chunks

-- The log was renamed, and a new file with the identity 2 stands at its path.
abbrev files : Files
files = record {
  entry = readable 2;
  bytes = λ id. if eqb id 1 then 97 ∷ 10 ∷ 98 ∷ 10 ∷ 99 ∷ [] else 100 ∷ 10 ∷ [];
}

abbrev at_second_line : Tail
at_second_line = record {
  handle = some 1;
  pos = 2;
  pending = start;
  skip_history = false;
  source_available = true;
  rewound = false;
}

read_new_lines-Rotated_example :
    Rotated files 2 (98 ∷ 10 ∷ 99 ∷ []) (read_new_lines files at_second_line)
read_new_lines-Rotated_example =
    read_new_lines-Rotated files 1 2 [] at_second_line (kept refl refl tt (omega arith)) refl refl
      refl refl (omega arith) (omega arith)

abbrev login : Login
login = record { invalid = false; user = "root"; ip = "10.0.0.9"; port = "4022" }

abbrev sshd_line : SyslogLine
sshd_line = record {
  bsd = some "Jan  2 03:04:05";
  iso = "";
  host = "web1";
  proc = "sshd";
  pid = some "77";
  msg = "message repeated 3 times: [ Failed password for root from 10.0.0.9 port 4022 ssh2]";
}

abbrev patterns : Patterns
patterns = record {
  syslog = λ s. some sshd_line;
  repeat = λ s. some (3, "Failed password for root from 10.0.0.9 port 4022 ssh2");
  failed = λ s. some login;
  accepted = λ s. none;
  invalid_user = λ s. none;
  bsd_time = λ s. some 1700000000;
  iso_time = λ s. none;
}

three_records : length (parse_auth_records patterns none "Jan  2 03:04:05 web1 sshd[77]: ...") ≡ 3
unfolding parse_auth_records
three_records = refl

parse_auth_records-Accepted_example :
    Accepted max_repeat (parse_auth_records patterns none "Jan  2 03:04:05 web1 sshd[77]: ...")
parse_auth_records-Accepted_example =
    parse_auth_records-Accepted patterns none "Jan  2 03:04:05 web1 sshd[77]: ..."

abbrev failed_password : RawAuthEvent
failed_password = record {
  common = record {
    occurred_at = 1700000000;
    host = "web1";
    action = "ssh_login_failed";
    severity = 4;
  };
  syslog_ts = "Jan  2 03:04:05";
  pid = "77";
  outcome = "failure";
  user = "root";
  ip = "10.0.0.9";
  port = 4022;
  occurrence = 0;
  message = "Failed password for root from 10.0.0.9 port 4022 ssh2";
}

-- The same connection, in the same second.
abbrev failed_key : RawAuthEvent
failed_key = record failed_password {
  message = "Failed publickey for root from 10.0.0.9 port 4022 ssh2";
}

abbrev this_second : Numbering
this_second = record { seen_ts = "Jan  2 03:04:05"; seen = [] }

abbrev ls : List Line
ls =
    record { first = failed_password; count = 1 }
    ∷ record { first = failed_key; count = 1 }
    ∷ record { first = failed_password; count = 3 }
    ∷ []

number_all-Apart_example :
    Apart (number_all ls this_second).1 × All (Above this_second) (number_all ls this_second).1
number_all-Apart_example = number_all-Apart ls this_second (refl, (refl, (refl, tt)))

another_message : failed_password.message ≢ failed_key.message
another_message e =
    let h : false ≡ true = (eq_iff failed_key.message failed_password.message).1 (sym e) in cc

number-collides_example :
    map auth_identity (
      (number (failed_password ∷ []) this_second).1
      ++ (number (failed_key ∷ []) (number (failed_password ∷ []) this_second).0).1)
    ≡ auth_identity failed_password ∷ auth_identity failed_password ∷ []
unfolding get
number-collides_example =
    number-collides failed_password failed_key this_second (record { now = refl; unseen = refl })
      (record { now = refl; unseen = refl }) another_message refl

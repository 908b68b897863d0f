-- ===== src/Collectors/AuthLog/Records/Copies.antt =====
-- How many records one line can stand for, and that each is one that the raw model accepts.
use mathlib.Core.Path.{subst}
use sentinel_linux.Prelude.{
  some_injective, ℕ, zero, suc, ◌+◌, ◌≤◌, ◌≡◌, refl, min, true, Option, none, some, List, [],
  length, All, String, ltb, inl, inr, Bool-cases, arith,
}
use sentinel_linux.Prelude.Text.{text_length}
use sentinel_linux.Prelude.Words.{int_of, strip_newlines}
use sentinel_linux.Prelude.Int.{ℤ, natural}
use sentinel_linux.RawEvents.{RawAuthEvent, valid_auth}
use sentinel_linux.Collectors.AuthLog.Records.{
  Patterns, SyslogLine, Body, copies, copies_of, accept, of_port, with_port, repeated, records_of,
  records_in, is_sshd, parse_auth_records, match_body, time_of, max_repeat, max_line_chars,
  stamp_of,
}

pub record Accepted (limit : ℕ) (records : List RawAuthEvent) : Type 0 where
  pub bounded : length records ≤ limit
  pub valid : All (λ r. valid_auth r ≡ true) records

nothing : (limit : ℕ) → Accepted limit []
nothing limit = record { bounded = omega arith; valid = tt }

copies-Accepted :
    (count n limit : ℕ) (first : RawAuthEvent)
    → count ≤ limit
    → valid_auth first ≡ true
    → Accepted limit (copies count n first)
unfolding copies valid_auth
copies-Accepted zero n limit first le h = nothing limit
copies-Accepted (suc count) n zero first le h = absurd (omega arith)
copies-Accepted (suc count) n (suc limit) first le h =
    let rest = copies-Accepted count (n + 1) limit first (omega arith) h in
    record { bounded = omega (arith, rest.bounded); valid = (h, rest.valid) }

accept-valid : (raw r : RawAuthEvent) → accept raw ≡ some r → valid_auth r ≡ true
accept-valid raw r h = elim (Bool-cases (valid_auth raw)) [
  | inl ok ↦ subst (λ x. valid_auth x ≡ true) (some_injective (rw ok at h)) ok
  | inr bad ↦ absurd (nothing_there (rw bad at h))
]
  where
    nothing_there : none ≡ some r → ⊥
    nothing_there e = cc

copies_of-Accepted :
    (count limit : ℕ) (o : Option RawAuthEvent)
    → ((r : RawAuthEvent) → o ≡ some r → valid_auth r ≡ true)
    → count ≤ limit
    → Accepted limit (copies_of count o)
copies_of-Accepted count limit none h le = nothing limit
copies_of-Accepted count limit (some first) h le =
    copies-Accepted count 0 limit first le (h first refl)

module _ (time : ℕ) (host_override : Option String) (line : SyslogLine) (ts : String) (body : Body)
    (message : String) where
  of_port-valid :
      (p : Option ℕ) (r : RawAuthEvent)
      → of_port p time host_override line ts body message ≡ some r
      → valid_auth r ≡ true
  of_port-valid none r h = cc
  of_port-valid (some port) r h = accept-valid _ r h

  with_port-valid :
      (p : Option ℤ) (r : RawAuthEvent)
      → with_port p time host_override line ts body message ≡ some r
      → valid_auth r ≡ true
  with_port-valid none r h = cc
  with_port-valid (some n) r h = of_port-valid (natural n) r h

module _ (patterns : Patterns) (host_override : Option String) where
  records_of-Accepted :
      (line : SyslogLine) (message : String) (count : ℕ) (body : Option Body) (time : Option ℕ)
      → count ≤ max_repeat
      → Accepted max_repeat (records_of patterns host_override line message count body time)
  records_of-Accepted line message count none time le = nothing max_repeat
  records_of-Accepted line message count (some body) none le = nothing max_repeat
  records_of-Accepted line message count (some body) (some time) le =
      copies_of-Accepted count max_repeat
        (with_port (int_of body.port) time host_override line (stamp_of line.bsd line.iso) body
          message)
        (with_port-valid time host_override line (stamp_of line.bsd line.iso) body message
          (int_of body.port))
        le

  repeated-Accepted :
      (line : SyslogLine) (o : Option (ℕ × String))
      → Accepted max_repeat (repeated patterns host_override line o)
  repeated-Accepted line none =
      records_of-Accepted line line.msg 1 (match_body patterns host_override line.msg)
        (time_of patterns host_override line) (omega arith)
  repeated-Accepted line (some (count, inner)) =
      records_of-Accepted line inner (min count max_repeat)
        (match_body patterns host_override inner) (time_of patterns host_override line)
        (omega arith)

  records_in-Accepted :
      (o : Option SyslogLine) → Accepted max_repeat (records_in patterns host_override o)
  records_in-Accepted none = nothing max_repeat
  records_in-Accepted (some line) = elim (Bool-cases (is_sshd patterns host_override line.proc)) [
    | inl sshd ↦ rw sshd (repeated-Accepted line (patterns.repeat line.msg))
    | inr other ↦ rw other (nothing max_repeat)
  ]

  -- Whatever a line claims to repeat, it stands for at most a thousand records, and each of them is
  -- within the limits of the raw model.
  pub parse_auth_records-Accepted :
      (line : String) → Accepted max_repeat (parse_auth_records patterns host_override line)
  unfolding parse_auth_records
  parse_auth_records-Accepted line = elim (Bool-cases (ltb max_line_chars (text_length line))) [
    | inl long ↦ rw long (nothing max_repeat)
    | inr short ↦ rw short (records_in-Accepted (patterns.syslog (strip_newlines line)))
  ]

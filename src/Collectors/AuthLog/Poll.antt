-- ===== src/Collectors/AuthLog/Poll.antt =====
-- One poll of authlog.py: what is read becomes lines, records and events.
use sentinel_linux.Prelude.{
  ℕ, ◌+◌, ◌≡◌, refl, Bool, true, false, Option, none, some, List, [], ◌∷◌, ◌++◌, map, length,
  String, if◌then◌else◌, arith, length-append, length-map, eqb, inl, inr, Bool-cases,
}
use sentinel_linux.Events.{Event}
use sentinel_linux.RawEvents.{RawAuthEvent, auth_event}
use sentinel_linux.Collectors.Emit.{Emitter, Emits, emit_all, emit_all-Emits}
use sentinel_linux.Collectors.AuthLog.Tail.{Files, Tail, Read, lines, failed, read_new_lines}
use sentinel_linux.Collectors.AuthLog.Records.{Patterns, parse_auth_records}
use sentinel_linux.Collectors.AuthLog.Numbering.{
  Numbering, number, count_or_zero, key_of, at_second, offset, auth_key,
}
use sentinel_linux.Dict.{get}

-- `_parsed` is the emitter's count; `_skipped` is counted beside the partial line.
pub record AuthLogCollector : Type 0 where
  pub tail : Tail
  pub numbering : Numbering
  pub emitter : Emitter

abbrev skip_line : List RawAuthEvent → Tail → Tail
skip_line [] t = record t { pending = record (t.pending) { skipped = t.pending.skipped + 1 } }
skip_line (r ∷ rs) t = t

-- The source is there once a file is open.
abbrev mark_open : Option ℕ → Tail → Tail
mark_open none t = t
mark_open (some id) t = record t { source_available = true }

-- A truncation cleared the occurrences seen.
abbrev after_rewind : Bool → Numbering → Numbering
after_rewind rewound n = if rewound then record n { seen = [] } else n

module _ (patterns : Patterns) (host_override : Option String) (decode : List ℕ → String)
    (sha256 : String → String) (local_hostname : String) (valid_event : Event → Bool) where
  -- The loop body: one line.
  unfoldable pub take_line : List ℕ → AuthLogCollector → AuthLogCollector × List Event
  unfolding parse_auth_records number emit_all
  take_line line c =
      let records = parse_auth_records patterns host_override (decode line) in
      let numbered = number records c.numbering in
      let out = emit_all sha256 local_hostname valid_event (map auth_event numbered.1) c.emitter in
      (record { tail = skip_line records c.tail; numbering = numbered.0; emitter = out.0 }, out.1)

  unfoldable pub take_lines : List (List ℕ) → AuthLogCollector → AuthLogCollector × List Event
  unfolding take_line
  take_lines [] c = (c, [])
  take_lines (line ∷ ls) c =
      let one = take_line line c in let rest = take_lines ls one.0 in (rest.0, one.1 ++ rest.1)

  abbrev pub use_read : Read → AuthLogCollector → AuthLogCollector × List Event
  use_read (failed t) c = (record c { tail = record t { source_available = false } }, [])
  use_read (lines t ls) c = take_lines ls (record c {
    tail = record (mark_open t.handle t) { rewound = false };
    numbering = after_rewind t.rewound c.numbering;
  })

  -- `_drain_once`: the collector after a poll, and the events that it puts on the queue.
  unfoldable pub drain_once : Files → AuthLogCollector → AuthLogCollector × List Event
  unfolding read_new_lines take_lines
  drain_once files c = use_read (read_new_lines files c.tail) c

  -- The records that a list of lines stands for.
  abbrev pub records_in_lines : List (List ℕ) → ℕ
  records_in_lines [] = 0
  records_in_lines (line ∷ ls) =
      length (parse_auth_records patterns host_override (decode line)) + records_in_lines ls

  abbrev pub records_read : Read → ℕ
  records_read (failed t) = 0
  records_read (lines t ls) = records_in_lines ls

  length-number : (rs : List RawAuthEvent) (n : Numbering) → length (number rs n).1 ≡ length rs
  unfolding number
  length-number [] n = refl
  length-number (r ∷ rs) n = go (count_or_zero (get (key_of r) (at_second r.syslog_ts n).seen))
    where
      go :
          (base : ℕ)
          → length (if eqb base 0 then r ∷ rs else map (offset base) (r ∷ rs)) ≡ length (r ∷ rs)
      go base = elim (Bool-cases (eqb base 0)) [
        | inl first ↦ rw first refl
        | inr later ↦ rw later (length-map (offset base) (r ∷ rs))
      ]

  take_line-Emits :
      (line : List ℕ) (c : AuthLogCollector)
      → Emits c.emitter
          (take_line line c).0.emitter
          (length (parse_auth_records patterns host_override (decode line)))
          (take_line line c).1
  unfolding take_line
  take_line-Emits line c =
      let records = parse_auth_records patterns host_override (decode line) in
      let numbered = number records c.numbering in
      let out =
        emit_all-Emits sha256 local_hostname valid_event (map auth_event numbered.1) c.emitter in
      record {
        each =
            omega (
              arith,
              out.each,
              length-map auth_event numbered.1,
              length-number records c.numbering,
            );
        put = out.put;
      }

  take_lines-Emits :
      (ls : List (List ℕ)) (c : AuthLogCollector)
      → Emits c.emitter (take_lines ls c).0.emitter (records_in_lines ls) (take_lines ls c).1
  unfolding take_lines
  take_lines-Emits [] c = record { each = omega arith; put = omega arith }
  take_lines-Emits (line ∷ ls) c =
      let o = take_line line c in
      let one = take_line-Emits line c in
      let rest = take_lines-Emits ls o.0 in
      record {
        each = omega (arith, one.each, rest.each);
        put = omega (arith, one.put, rest.put, length-append o.1 (take_lines ls o.0).1);
      }

  -- A poll puts an event on the queue, or counts a dead letter, for each record of each line that it
  -- read; if the file cannot be read it puts nothing and counts nothing.
  pub drain_once-Emits :
      (files : Files) (c : AuthLogCollector)
      → Emits c.emitter
          (drain_once files c).0.emitter
          (records_read (read_new_lines files c.tail))
          (drain_once files c).1
  unfolding drain_once
  drain_once-Emits files c = go (read_new_lines files c.tail)
    where
      go : (r : Read) → Emits c.emitter (use_read r c).0.emitter (records_read r) (use_read r c).1
      go (failed t) = record { each = omega arith; put = omega arith }
      go (lines t ls) =
          let h = take_lines-Emits ls (record c {
            tail = record (mark_open t.handle t) { rewound = false };
            numbering = after_rewind t.rewound c.numbering;
          }) in
          record { each = h.each; put = h.put }

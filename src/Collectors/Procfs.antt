-- ===== src/Collectors/Procfs.antt =====
-- The reading of one process by src/sentinel/collectors/process.py: `parse_stat`, the comm, the command
-- line and the program, and `_read_proc` with what is known of the process. The files of its directory
-- are parameters (`none` is an OSError), and so is `os_text` of base.py.
use sentinel_linux.Prelude.{
  ℕ, ◌+◌, Bool, true, false, ◌&&◌, Option, none, some, List, length, get_elem?, if◌then◌else◌,
  String, ltb,
}
use sentinel_linux.Prelude.Eq.{◌==◌, nat_key, int_key, option_text_key}
use sentinel_linux.Prelude.Int.{ℤ}
use sentinel_linux.Prelude.Text.{text_drop, text_take, text_replace}
use sentinel_linux.Prelude.Words.{words, strip, text_find, text_rfind, int_of}
use sentinel_linux.Dict.{Dict, set}
use sentinel_linux.RawEvents.{max_command_line, max_path}
use sentinel_linux.Normalizer.{or_none}
use sentinel_linux.Collectors.Clip.{clip}

-- `_ProcState`
pub record ProcState : Type 0 where
  pub pid : ℕ
  pub ppid : ℤ
  pub starttime : ℤ
  pub comm : String
  pub cmdline : Option String
  pub executable : Option String
  pub settled : Bool

abbrev pub stat_min_fields : ℕ
stat_min_fields = 20

-- `int(fields[i])`; `none` is its ValueError.
abbrev int_field : ℕ → List String → Option ℤ
int_field i fields = elim (get_elem? fields i) [ none ↦ none | some f ↦ int_of f ]

abbrev pub both : Option ℤ → Option ℤ → Option (ℤ × ℤ)
both none n = none
both (some m) none = none
both (some m) (some n) = some (m, n)

abbrev pub stat_fields : List String → Option (ℤ × ℤ)
stat_fields fields =
    if ltb (length fields) stat_min_fields
    then none
    else both (int_field 1 fields) (int_field 19 fields)

-- `parse_stat`: the parent and the start time.
abbrev pub stat_after : String → Option ℕ → Option (ℤ × ℤ)
stat_after content none = none
stat_after content (some rparen) = stat_fields (words (text_drop (rparen + 1) content))

unfoldable pub parse_stat : String → Option (ℤ × ℤ)
parse_stat content = stat_after content (text_rfind b')' content)

-- `_parse_comm_from_stat`
abbrev comm_between : String → Option ℕ → Option ℕ → String
comm_between content (some lparen) (some rparen) =
    if ltb lparen rparen then text_drop (lparen + 1) (text_take rparen content) else ""
comm_between content (some lparen) none = ""
comm_between content none r = ""

unfoldable pub parse_comm_from_stat : String → String
parse_comm_from_stat content =
    comm_between content (text_find b'(' content) (text_rfind b')' content)

-- The files of /proc/<pid>.
pub record ProcFiles : Type 0 where
  pub stat : Option String
  pub comm : Option String
  pub cmdline : Option String
  pub exe : Option String

-- `_read_comm`; `comm or …`
abbrev first_text : Option String → String → String
first_text none other = other
first_text (some s) other = s

unfoldable pub read_comm : ProcFiles → String → String
unfolding parse_comm_from_stat
read_comm files stat_content =
    first_text (elim files.comm [ none ↦ none | some s ↦ or_none (strip s) ])
      (parse_comm_from_stat stat_content)

-- `_read_cmdline`
unfoldable pub read_cmdline : ProcFiles → Option String
unfolding clip
read_cmdline files = elim files.cmdline [
  | none ↦ none
  | some raw ↦ or_none (clip (strip (text_replace 0 " " raw)) max_command_line)
]

-- `_read_exe`
unfoldable pub read_exe : (String → String) → ProcFiles → Option String
unfolding clip
read_exe os_text files = elim files.exe [
  | none ↦ none
  | some link ↦ some (clip (os_text link) max_path)
]

abbrev pub is_none : Option String → Bool
is_none none = true
is_none (some s) = false

abbrev pub keep_state : ℕ → Option ProcState → Dict ℕ ProcState → Dict ℕ ProcState
keep_state pid none snapshot = snapshot
keep_state pid (some state) snapshot = set pid state snapshot

module _ (os_text : String → String) where
  -- The process as it is read when it is not yet settled.
  abbrev pub fresh_state : ℕ → ℤ → ℤ → ProcFiles → String → Bool → ProcState
  fresh_state pid ppid starttime files stat_content settled = record {
    pid = pid;
    ppid = ppid;
    starttime = starttime;
    comm = read_comm files stat_content;
    cmdline = read_cmdline files;
    executable = read_exe os_text files;
    settled = settled;
  }

  -- An empty second reading leaves the first.
  abbrev pub second_state : ProcState → ProcState → ProcState
  second_state known fresh =
      if is_none fresh.cmdline && is_none fresh.executable
      then record fresh { cmdline = known.cmdline; executable = known.executable }
      else fresh

  abbrev pub read_known : ℕ → Option ProcState → ProcFiles → String → ℤ × ℤ → ProcState
  read_known pid none files stat_content (ppid, starttime) =
      fresh_state pid ppid starttime files stat_content false
  read_known pid (some known) files stat_content (ppid, starttime) =
      if known.starttime == starttime
      then (if known.settled
          then record known { ppid = ppid }
          else second_state known (fresh_state pid ppid starttime files stat_content true))
      else fresh_state pid ppid starttime files stat_content false

  -- `_read_proc`
  abbrev pub read_parsed :
      ℕ → Option ProcState → ProcFiles → String → Option (ℤ × ℤ) → Option ProcState
  read_parsed pid known files stat_content none = none
  read_parsed pid known files stat_content (some parsed) =
      some (read_known pid known files stat_content parsed)

  unfoldable pub read_proc : ℕ → Option ProcState → ProcFiles → Option ProcState
  unfolding parse_stat read_comm read_cmdline read_exe
  read_proc pid known files = elim files.stat [
    | none ↦ none
    | some content ↦ read_parsed pid known files content (parse_stat content)
  ]

-- ===== src/Collectors/Process.antt =====
-- src/sentinel/collectors/process.py: the scan, the comparison of two scans and the poll. What the kernel
-- answers is a parameter: the names under the proc root and the files of each process.
pub mod Diff
pub mod Drain
pub mod Reading
pub mod Accepted
use sentinel_linux.Prelude.{
  ℕ, ◌+◌, Bool, true, false, not, ◌&&◌, Option, none, some, List, [], ◌∷◌, ◌++◌, length, get_elem?,
  if◌then◌else◌, String, ltb, leb,
}
use sentinel_linux.Prelude.Eq.{KeyEq, ◌==◌, nat_key, int_key, option_text_key}
use sentinel_linux.Prelude.Int.{ℤ, pos, negsuc, natural}
use sentinel_linux.Prelude.Text.{text_drop, text_take, text_replace}
use sentinel_linux.Prelude.Words.{words, strip, text_find, text_rfind, text_isdigit, int_of}
use sentinel_linux.Dict.{Dict, get, set}
use sentinel_linux.Events.{Event}
use sentinel_linux.RawEvents.{
  Common, RawProcessEvent, RawEvent, process_event, valid_process, max_command_line, max_path,
}
use sentinel_linux.Normalizer.{or_none}
use sentinel_linux.Collectors.Clip.{clip}
use sentinel_linux.Collectors.Emit.{Emitter, publish}
use sentinel_linux.Collectors.Snapshot.{seen_now, no_longer}
use sentinel_linux.Collectors.Procfs.{ProcState, ProcFiles, keep_state, read_proc}

module _ (os_text : String → String) where
  -- `_scan`: at most `max_procs` processes.
  unfoldable pub scan_pids :
      ℕ → Dict ℕ ProcState → (ℕ → ProcFiles) → List ℕ → Dict ℕ ProcState → Dict ℕ ProcState
  unfolding read_proc get set
  scan_pids max_procs previous files [] snapshot = snapshot
  scan_pids max_procs previous files (pid ∷ pids) snapshot =
      let state = read_proc os_text pid (get pid previous) (files pid) in
      let rest = scan_pids max_procs previous files pids (keep_state pid state snapshot) in
      if leb max_procs (length snapshot) then snapshot else rest

-- `_iter_pids`: the numeric names under the proc root. Without the root there are none.
unfoldable pub pids_of : List String → List ℕ
pids_of [] = []
pids_of (name ∷ names) =
    let rest = pids_of names in
    let pid : Option ℕ = elim (int_of name) [ none ↦ none | some n ↦ natural n ] in
    if text_isdigit name then elim pid [ none ↦ rest | some n ↦ n ∷ rest ] else rest

abbrev pub iter_pids : Option (List String) → List ℕ
unfolding pids_of
iter_pids none = []
iter_pids (some names) = pids_of names

-- What `_diff` finds: one record to build for each.
pub data ProcChange : Type 0 where
  started stopped : ProcState → ProcChange

abbrev pub same_image : ProcState → ProcState → Bool
same_image old new = old.cmdline == new.cmdline && old.executable == new.executable

-- The body of the loop over the new snapshot.
unfoldable pub proc_changes : ℕ → Option ProcState → ProcState → List ProcChange
proc_changes pid none state = started state ∷ []
proc_changes pid (some previous) state =
    if previous.starttime == state.starttime
    then (if same_image previous state then [] else started state ∷ [])
    else stopped previous ∷ started state ∷ []

abbrev pub proc_gone : ℕ → ProcState → ProcChange
proc_gone pid previous = stopped previous

-- `_diff`
unfoldable pub diff : Dict ℕ ProcState → Dict ℕ ProcState → List ProcChange
unfolding seen_now no_longer proc_changes
diff old new = seen_now proc_changes old new ++ no_longer proc_gone new old

-- `_raw`, `_started` and `_stopped`; `none` is what the raw model rejects.
abbrev accept : RawProcessEvent → Option RawEvent
accept raw = if valid_process raw then some (process_event raw) else none

abbrev with_numbers : ProcState → Common → Option ℕ → Option ℕ → Option RawEvent
with_numbers state common (some ppid) (some starttime) = accept (record {
  common = common;
  pid = state.pid;
  ppid = ppid;
  starttime = starttime;
  comm = state.comm;
  cmdline = state.cmdline;
  executable = state.executable;
})
with_numbers state common (some ppid) none = none
with_numbers state common none starttime = none

unfoldable pub raw : String → ℕ → String → ℕ → ProcState → Option RawEvent
unfolding valid_process
raw host now action severity state =
    with_numbers state
      (record { occurred_at = now; host = host; action = action; severity = severity })
      (natural state.ppid) (natural state.starttime)

unfoldable pub raw_of_change : String → ℕ → ProcChange → Option RawEvent
unfolding raw
raw_of_change host now (started state) = raw host now "process_started" 3 state
raw_of_change host now (stopped state) = raw host now "process_stopped" 2 state

pub record ProcessCollector : Type 0 where
  pub host : String
  pub max_procs : ℕ
  pub baseline : Dict ℕ ProcState
  pub seeded : Bool
  pub source_available : Bool
  pub emitter : Emitter

-- What one poll reads.
pub record Poll : Type 0 where
  pub names : Option (List String)
  pub files : ℕ → ProcFiles
  pub clock : ℕ → ℕ

abbrev pub is_listed : Option (List String) → Bool
is_listed none = false
is_listed (some names) = true

module _ (os_text : String → String) where
  unfoldable pub scan : ℕ → Dict ℕ ProcState → Poll → Dict ℕ ProcState
  unfolding scan_pids
  scan max_procs previous poll =
      scan_pids os_text max_procs previous poll.files (iter_pids poll.names) []

module _ (sha256 : String → String) (local_hostname : String) (valid_event : Event → Bool) where
  -- The rest of `_drain_once`, the snapshot taken.
  unfoldable pub observe :
      (ℕ → ℕ) → Dict ℕ ProcState → ProcessCollector → ProcessCollector × List Event
  unfolding diff publish raw_of_change
  observe clock snapshot c =
      let out =
        publish sha256 local_hostname valid_event (raw_of_change c.host) clock
          (diff c.baseline snapshot) c.emitter in
      if c.seeded
      then (record c { baseline = snapshot; emitter = out.0 }, out.1)
      else (record c { baseline = snapshot; seeded = true }, [])

module _ (os_text : String → String) (sha256 : String → String) (local_hostname : String)
    (valid_event : Event → Bool) where
  -- `_drain_once`: the collector after a poll, and the events that it puts on the queue.
  unfoldable pub drain_once : Poll → ProcessCollector → ProcessCollector × List Event
  unfolding scan observe
  drain_once poll c =
      observe sha256 local_hostname valid_event poll.clock
        (scan os_text c.max_procs c.baseline poll)
        (record c { source_available = is_listed poll.names })

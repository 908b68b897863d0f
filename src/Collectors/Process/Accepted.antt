-- ===== src/Collectors/Process/Accepted.antt =====
-- What is read of a process is within the limits of the raw model.
use mathlib.Core.Path.{subst}
use sentinel_linux.Prelude.{
  ℕ, ◌≤◌, ◌≡◌, refl, Bool, true, false, Option, none, some, leb, ◌&&◌, String, inl, inr, Bool-cases,
  some_injective, arith,
}
use sentinel_linux.Prelude.Eq.{◌==◌, int_key}
use sentinel_linux.Prelude.Int.{ℤ, natural}
use sentinel_linux.Prelude.Text.{text_replace}
use text.Mathlib.Text.{◌==◌ as str_eq}
use sentinel_linux.Prelude.Words.{strip}
use sentinel_linux.RawEvents.{
  RawEvent, RawProcessEvent, process_event, valid_process, max_command_line, max_path, max_pid,
  optional_within, within, valid_common,
}
use sentinel_linux.Normalizer.{or_none}
use sentinel_linux.Collectors.Clip.{clip, clip_length}
use sentinel_linux.Collectors.Process.{raw_of_change, raw, started, stopped, ProcChange}
use sentinel_linux.Collectors.Procfs.{
  ProcState, ProcFiles, parse_stat, read_proc, read_parsed, read_known, read_cmdline, read_exe,
  fresh_state, second_state, is_none,
}

abbrev pub state_of : ProcChange → ProcState
state_of (started s) = s
state_of (stopped s) = s

-- The details that the raw model accepts by their length.
pub record Fits (s : ProcState) : Type 0 where
  pub command : optional_within max_command_line s.cmdline ≡ true
  pub program : optional_within max_path s.executable ≡ true

fits_clipped :
    (text : String) (limit : ℕ) → 5 ≤ limit → optional_within limit (some (clip text limit)) ≡ true
fits_clipped text limit h = ground (arith, h, clip_length text limit)

fits_or_none :
    (text : String) (limit : ℕ)
    → 5 ≤ limit
    → optional_within limit (or_none (clip text limit)) ≡ true
fits_or_none text limit h = elim (Bool-cases (str_eq (clip text limit) "")) [
  | inl empty ↦ rw (empty, or_none) refl
  | inr some_text ↦ rw (some_text, or_none) (fits_clipped text limit h)
]

-- What else the raw model asks of a process record.
pub record Acceptable (host : String) (s : ProcState) : Type 0 where
  pub named : within 1 253 host ≡ true
  pub pid_ok : s.pid ≤ max_pid
  pub comm_ok : within 0 256 s.comm ≡ true
  pub parent : ℕ
  pub parent_is : natural s.ppid ≡ some parent
  pub parent_ok : parent ≤ max_pid
  pub start : ℕ
  pub start_is : natural s.starttime ≡ some start

abbrev process_record : String → ℕ → String → ℕ → ProcState → ℕ → ℕ → RawProcessEvent
process_record host now action severity s parent start = record {
  common = record { occurred_at = now; host = host; action = action; severity = severity };
  pid = s.pid;
  ppid = parent;
  starttime = start;
  comm = s.comm;
  cmdline = s.cmdline;
  executable = s.executable;
}

raw_built :
    (host action : String) (now severity : ℕ) (s : ProcState)
    → within 1 200 action ≡ true
    → leb severity 7 ≡ true
    → Fits s
    → (a : Acceptable host s)
    → raw host now action severity s
      ≡ some (process_event (process_record host now action severity s a.parent a.start))
unfolding raw valid_process valid_common
raw_built host action now severity s ha hs f a =
    rw (a.parent_is, a.start_is)
      (rw
        (
          a.named,
          ha,
          hs,
          a.comm_ok,
          f.command,
          f.program,
          le_true s.pid a.pid_ok,
          le_true a.parent a.parent_ok,
        )
        refl)
  where
    le_true : (n : ℕ) → n ≤ max_pid → leb n max_pid ≡ true
    le_true n h = ground arith

change_built :
    (host : String) (now : ℕ) (c : ProcChange)
    → Fits (state_of c)
    → Acceptable host (state_of c)
    → (r : RawEvent) × (raw_of_change host now c ≡ some r)
unfolding raw_of_change
change_built host now (started s) f a = (
  process_event (process_record host now "process_started" 3 s a.parent a.start),
  raw_built host "process_started" now 3 s refl refl f a,
)
change_built host now (stopped s) f a = (
  process_event (process_record host now "process_stopped" 2 s a.parent a.start),
  raw_built host "process_stopped" now 2 s refl refl f a,
)

module _ (os_text : String → String) where
  fresh-Fits :
      (pid : ℕ) (p t : ℤ) (files : ProcFiles) (content : String) (b : Bool)
      → Fits (fresh_state os_text pid p t files content b)
  unfolding read_cmdline read_exe
  fresh-Fits pid p t files content b = record {
    command = cmd files.cmdline;
    program = prog files.exe;
  }
    where
      cmd :
          (o : Option String)
          → optional_within max_command_line (read_cmdline (record files { cmdline = o })) ≡ true
      cmd none = refl
      cmd (some line) =
          fits_or_none (strip (text_replace 0 " " line)) max_command_line (omega arith)

      prog :
          (o : Option String)
          → optional_within max_path (read_exe os_text (record files { exe = o })) ≡ true
      prog none = refl
      prog (some link) = fits_clipped (os_text link) max_path (omega arith)

  second-Fits : (k f : ProcState) → Fits k → Fits f → Fits (second_state os_text k f)
  second-Fits k f hk hf = elim (Bool-cases (is_none f.cmdline && is_none f.executable)) [
    | inl empty ↦ rw empty (record { command = hk.command; program = hk.program })
    | inr full ↦ rw full hf
  ]

  known-Fits :
      (pid : ℕ) (known : Option ProcState) (files : ProcFiles) (content : String) (p t : ℤ)
      → ((k : ProcState) → known ≡ some k → Fits k)
      → Fits (read_known os_text pid known files content (p, t))
  known-Fits pid none files content p t h = fresh-Fits pid p t files content false
  known-Fits pid (some k) files content p t h = elim (Bool-cases (k.starttime == t)) [
    | inl same ↦ elim (Bool-cases k.settled) [
      | inl settled ↦
          rw (same, settled) (record { command = (h k refl).command; program = (h k refl).program })
      | inr again ↦
          rw (same, again)
            (second-Fits k (fresh_state os_text pid p t files content true) (h k refl)
              (fresh-Fits pid p t files content true))
    ]
    | inr other ↦ rw other (fresh-Fits pid p t files content false)
  ]

  read_proc-Fits :
      (pid : ℕ) (known : Option ProcState) (files : ProcFiles) (s : ProcState)
      → ((k : ProcState) → known ≡ some k → Fits k)
      → read_proc os_text pid known files ≡ some s
      → Fits s
  unfolding read_proc
  read_proc-Fits pid known files s h = go files.stat
    where
      parsed :
          (content : String) (o : Option (ℤ × ℤ))
          → read_parsed os_text pid known files content o ≡ some s
          → Fits s
      parsed content none e = cc
      parsed content (some (p, t)) e =
          subst Fits (some_injective e) (known-Fits pid known files content p t h)

      go :
          (o : Option String)
          → (elim o [
            | none ↦ none
            | some content ↦ read_parsed os_text pid known files content (parse_stat content)
          ])
            ≡ some s
          → Fits s
      go none e = cc
      go (some content) e = parsed content (parse_stat content) e

  -- However long its command line and its program's path are, a process that was read is reported:
  -- no start or stop of it is rejected, as long as its numbers, its name and the host's are in range.
  pub read_proc-built :
      (host : String) (now pid : ℕ) (known : Option ProcState) (files : ProcFiles) (c : ProcChange)
      → ((k : ProcState) → known ≡ some k → Fits k)
      → read_proc os_text pid known files ≡ some (state_of c)
      → Acceptable host (state_of c)
      → (r : RawEvent) × (raw_of_change host now c ≡ some r)
  read_proc-built host now pid known files c h e =
      change_built host now c (read_proc-Fits pid known files (state_of c) h e)

-- ===== src/Tests/Processes.antt =====
-- Concrete /proc trees, and the witnesses of the theorems on the process collector.
use sentinel_linux.Prelude.{
  ℕ, ◌≡◌, refl, false, none, some, List, [], ◌∷◌, if◌then◌else◌, String, eqb, arith,
}
use sentinel_linux.Prelude.Eq.{nat_key}
use sentinel_linux.Prelude.Int.{pos}
use sentinel_linux.Prelude.Text.{text_append}
use sentinel_linux.Prelude.Words.{int_of, Lacks, Lacks-lacks}
use sentinel_linux.Dict.{Dict}
use sentinel_linux.RawEvents.{RawEvent}
use sentinel_linux.Collectors.Snapshot.Replay.{played, table}
use sentinel_linux.Collectors.Process.{Poll, started, raw_of_change}
use sentinel_linux.Collectors.Procfs.{ProcState, ProcFiles, parse_stat, read_proc}
use sentinel_linux.Collectors.Process.Diff.{pid_of, learn, image, watch, watch-replays, IsSnapshot}
use sentinel_linux.Collectors.Process.Reading.{parse_stat-front}
use sentinel_linux.Collectors.Process.Accepted.{read_proc-built}

abbrev unchanged : String → String
unchanged s = s

abbrev fields_after : String
fields_after = " S 1 7 7 0 -1 0 1 0 0 0 0 0 0 0 20 0 1 0 500"

abbrev stat_line : String
stat_line = "7 (sh) S 1 7 7 0 -1 0 1 0 0 0 0 0 0 0 20 0 1 0 500"

abbrev shell : ProcFiles
shell = record {
  stat = some stat_line;
  comm = some "sh\n";
  cmdline = some "sh";
  exe = some "/bin/sh";
}

-- The same process after its exec.
abbrev miner : ProcFiles
miner = record {
  stat = some stat_line;
  comm = some "xm\n";
  cmdline = some "xm -o";
  exe = some "/tmp/xm";
}

abbrev gone : ProcFiles
gone = record { stat = none; comm = none; cmdline = none; exe = none }

abbrev poll_of : ProcFiles → Poll
poll_of files = record {
  names = some ("7" ∷ "self" ∷ []);
  files = λ pid. if eqb pid 7 then files else gone;
  clock = λ n. n;
}

abbrev no_processes : Dict ℕ ProcState
no_processes = []

stat_read : parse_stat stat_line ≡ some (pos 1, pos 500)
unfolding parse_stat int_of
stat_read = refl

abbrev shell_state : ProcState
shell_state = record {
  pid = 7;
  ppid = pos 1;
  starttime = pos 500;
  comm = "sh";
  cmdline = some "sh";
  executable = some "/bin/sh";
  settled = false;
}

shell_read : read_proc unchanged 7 none shell ≡ some shell_state
unfolding read_proc parse_stat int_of
shell_read = refl

abbrev polls : List Poll
polls = poll_of shell ∷ poll_of miner ∷ poll_of gone ∷ []

watch-replays_example :
    (played pid_of learn 7 (watch unchanged 10 polls no_processes).0 (table image no_processes 7)
      ≡ table image (watch unchanged 10 polls no_processes).1 7)
    × IsSnapshot 10 (watch unchanged 10 polls no_processes).1
watch-replays_example =
    watch-replays unchanged 10 polls no_processes 7
      (record { filed = tt; distinct = tt; bounded = omega arith })

no_parenthesis : Lacks 41 fields_after
no_parenthesis = Lacks-lacks 41 fields_after refl

parse_stat-front_example :
    parse_stat (text_append "7 (a) S 2 (b" (text_append ")" fields_after))
    ≡ parse_stat (text_append "7 (sh" (text_append ")" fields_after))
parse_stat-front_example = parse_stat-front "7 (a) S 2 (b" "7 (sh" fields_after no_parenthesis

read_proc-built_example : (r : RawEvent) × (raw_of_change "web1" 5 (started shell_state) ≡ some r)
read_proc-built_example =
    read_proc-built unchanged "web1" 5 7 none shell (started shell_state) (λ k e. cc) shell_read
      (record {
        named = refl;
        pid_ok = omega arith;
        comm_ok = refl;
        parent = 1;
        parent_is = refl;
        parent_ok = omega arith;
        start = 500;
        start_is = refl;
      })

-- ===== src/Collectors/Process/Diff.antt =====
-- The records of process.py's `_diff`, taken as a log: what they say of the process table.
use mathlib.Core.Path.{subst}
use sentinel_linux.Prelude.{
  ℕ, ◌≤◌, ◌≡◌, refl, ap, ◌∙◌, true, false, Option, none, some, List, [], ◌∷◌, ◌++◌, length, leb,
  String, inl, inr, Bool-cases, some_injective, arith,
}
use sentinel_linux.Prelude.Eq.{text_key, ◌==◌, nat_key, int_key, option_text_key, option_same_iff}
use sentinel_linux.Prelude.Int.{ℤ, int_same_iff}
use sentinel_linux.Dict.{Dict, get, Distinct}
use sentinel_linux.Dict.Laws.{length-set, Distinct-set}
use sentinel_linux.Collectors.Snapshot.{Entries}
use sentinel_linux.Collectors.Snapshot.Replay.{
  ChangeLaws, played, played-append, played-diff, table, Entries-set, Entries-get,
}
use sentinel_linux.Collectors.Process.{
  Poll, ProcChange, started, stopped, proc_changes, proc_gone, diff, scan, scan_pids, iter_pids,
  same_image,
}
use sentinel_linux.Collectors.Procfs.{
  ProcState, ProcFiles, read_proc, keep_state, parse_stat, read_parsed,
}

-- What a reader of the records knows of a pid: the instance, and the image that it runs.
abbrev pub Image : Type 0
Image = ℤ × Option String × Option String

abbrev pub image : ProcState → Image
image s = (s.starttime, s.cmdline, s.executable)

abbrev pub pid_of : ProcChange → ℕ
pid_of (started s) = s.pid
pid_of (stopped s) = s.pid

abbrev pub learn : ProcChange → Option Image → Option Image
learn (started s) o = some (image s)
learn (stopped s) o = none

abbrev pub Filed : ℕ → ProcState → Type 0
Filed pid s = s.pid ≡ pid

unchanged :
    (u v : ProcState)
    → u.starttime == v.starttime ≡ true
    → same_image u v ≡ true
    → image u ≡ image v
unchanged u v t h = ground (
  arith,
  int_same_iff u.starttime v.starttime,
  option_same_iff u.cmdline v.cmdline,
  option_same_iff u.executable v.executable,
)

proc_laws : ChangeLaws Filed image pid_of learn proc_changes proc_gone
unfolding proc_changes
proc_laws = record {
  first = λ k v p. (p, tt);
  again = λ k u v p q. elim (Bool-cases (u.starttime == v.starttime)) [
    | inl same ↦ elim (Bool-cases (same_image u v)) [
      | inl kept ↦ rw same (rw kept tt)
      | inr changed ↦ rw same (rw changed (q, tt))
    ]
    | inr other ↦ rw other (p, (q, tt))
  ];
  opened = λ k v p. ground (arith, p);
  updated = λ k u v p q. elim (Bool-cases (u.starttime == v.starttime)) [
    | inl same ↦ elim (Bool-cases (same_image u v)) [
      | inl kept ↦ rw same (rw kept (ap some (unchanged u v same kept)))
      | inr changed ↦ rw same (rw changed (ground (arith, q)))
    ]
    | inr other ↦ rw other (ground (arith, p, q))
  ];
  left = λ k v p. p;
  closed = λ k v p. refl;
}

-- The records of one poll, played on the table of the old snapshot, give that of the new one.
diff-replays :
    (k : ℕ) (old new : Dict ℕ ProcState)
    → Entries Filed old
    → Entries Filed new
    → Distinct old
    → Distinct new
    → played pid_of learn k (diff old new) (table image old k) ≡ table image new k
unfolding diff
diff-replays = played-diff Filed image pid_of learn proc_changes proc_gone proc_laws

pub record IsSnapshot (max_procs : ℕ) (d : Dict ℕ ProcState) : Type 0 where
  pub filed : Entries Filed d
  pub distinct : Distinct d
  pub bounded : length d ≤ max_procs

module _ (os_text : String → String) where
  read-Filed :
      (pid : ℕ) (known : Option ProcState) (files : ProcFiles) (content : String)
      (o : Option (ℤ × ℤ)) (s : ProcState)
      → (e : (k : ProcState) → known ≡ some k → k.pid ≡ pid)
      → read_parsed os_text pid known files content o ≡ some s
      → s.pid ≡ pid
  read-Filed pid known files content none s e h = cc
  read-Filed pid none files content (some (ppid, starttime)) s e h =
      subst (λ (t : ProcState). t.pid ≡ pid) (some_injective h) refl
  read-Filed pid (some k) files content (some (ppid, starttime)) s e h = ground (arith, e k refl)

  keep-IsSnapshot :
      (max_procs pid : ℕ) (o : Option ProcState) (snapshot : Dict ℕ ProcState)
      → ((s : ProcState) → o ≡ some s → s.pid ≡ pid)
      → leb max_procs (length snapshot) ≡ false
      → IsSnapshot max_procs snapshot
      → IsSnapshot max_procs (keep_state pid o snapshot)
  keep-IsSnapshot max_procs pid none snapshot f room h = h
  keep-IsSnapshot max_procs pid (some s) snapshot f room h = record {
    filed = Entries-set Filed pid s snapshot (f s refl) h.filed;
    distinct = Distinct-set pid s snapshot h.distinct;
    bounded = ground (arith, length-set pid s snapshot);
  }

  read_proc-Filed :
      (pid : ℕ) (previous : Dict ℕ ProcState) (files : ProcFiles) (s : ProcState)
      → Entries Filed previous
      → read_proc os_text pid (get pid previous) files ≡ some s
      → s.pid ≡ pid
  unfolding read_proc
  read_proc-Filed pid previous files s h = go files.stat
    where
      go :
          (o : Option String)
          → (elim o [
            | none ↦ none
            | some content ↦
                read_parsed os_text pid (get pid previous) files content (parse_stat content)
          ])
            ≡ some s
          → s.pid ≡ pid
      go none e = cc
      go (some content) e =
          read-Filed pid (get pid previous) files content (parse_stat content) s
            (λ k g. Entries-get Filed pid k previous h g) e

  scan_pids-IsSnapshot :
      (max_procs : ℕ) (previous : Dict ℕ ProcState) (files : ℕ → ProcFiles) (pids : List ℕ)
      (snapshot : Dict ℕ ProcState)
      → Entries Filed previous
      → IsSnapshot max_procs snapshot
      → IsSnapshot max_procs (scan_pids os_text max_procs previous files pids snapshot)
  unfolding scan_pids
  scan_pids-IsSnapshot max_procs previous files [] snapshot hp h = h
  scan_pids-IsSnapshot max_procs previous files (pid ∷ pids) snapshot hp h =
      elim (Bool-cases (leb max_procs (length snapshot))) [
        | inl full ↦ rw full h
        | inr room ↦
            let state = read_proc os_text pid (get pid previous) (files pid) in
            rw room (
              scan_pids-IsSnapshot max_procs previous files pids (keep_state pid state snapshot) hp
                (keep-IsSnapshot max_procs pid state snapshot
                  (λ s e. read_proc-Filed pid previous (files pid) s hp e) room h))
      ]

  -- A scan files every process under its own pid, once, and keeps at most `max_procs`.
  pub scan-IsSnapshot :
      (max_procs : ℕ) (previous : Dict ℕ ProcState) (poll : Poll)
      → Entries Filed previous
      → IsSnapshot max_procs (scan os_text max_procs previous poll)
  unfolding scan
  scan-IsSnapshot max_procs previous poll h =
      scan_pids-IsSnapshot max_procs previous poll.files (iter_pids poll.names) [] h
        (record { filed = tt; distinct = tt; bounded = omega arith })

  -- The records of a run of polls and the last snapshot.
  pub watch : ℕ → List Poll → Dict ℕ ProcState → List ProcChange × Dict ℕ ProcState
  watch max_procs [] baseline = ([], baseline)
  watch max_procs (poll ∷ polls) baseline =
      let snapshot = scan os_text max_procs baseline poll in
      let rest = watch max_procs polls snapshot in (diff baseline snapshot ++ rest.0, rest.1)

  -- Over any run of polls, the start and stop records, played in order on the table of instances and
  -- images that the first snapshot gives, yield exactly the table of the last one.
  pub watch-replays :
      (max_procs : ℕ) (polls : List Poll) (baseline : Dict ℕ ProcState) (pid : ℕ)
      → IsSnapshot max_procs baseline
      → let o = watch max_procs polls baseline in
        (played pid_of learn pid o.0 (table image baseline pid) ≡ table image o.1 pid)
        × IsSnapshot max_procs o.1
  unfolding watch
  watch-replays max_procs [] baseline pid h = (refl, h)
  watch-replays max_procs (poll ∷ polls) baseline pid h =
      let snapshot = scan os_text max_procs baseline poll in
      let hs = scan-IsSnapshot max_procs baseline poll h.filed in
      let rest = watch-replays max_procs polls snapshot pid hs in
      (
        played-append pid_of learn pid (diff baseline snapshot) (watch max_procs polls snapshot).0
              (table image baseline pid)
            ∙ ap (played pid_of learn pid (watch max_procs polls snapshot).0)
                (diff-replays pid baseline snapshot h.filed hs.filed h.distinct hs.distinct)
            ∙ rest.0,
        rest.1,
      )

-- ===== src/Collectors/Integrity/Scan.antt =====
-- The scan of integrity.py: which files are looked at, the stat cache, the limits and the deadline.
-- The walk of a directory is what `os.walk` yields, top first: each directory and its plain names.
pub mod Invariant
pub mod Cache
use text.Mathlib.Text.{◌==◌ as str_eq}
use sentinel_linux.Prelude.{
  ℕ, ◌+◌, ◌*◌, ◌%◌, Bool, true, false, ◌&&◌, ◌||◌, not, Option, none, some, List, [], ◌∷◌, ◌++◌,
  map, length, if◌then◌else◌, String, leb, ltb, any, keep,
}
use sentinel_linux.Prelude.Eq.{text_key}
use sentinel_linux.Prelude.Int.{ℤ, ltb_scaled}
use sentinel_linux.Prelude.Text.{text_append, text_starts, text_ends, text_drop, text_length}
use sentinel_linux.Dict.{Dict, get, set}
use sentinel_linux.Collectors.Integrity.{FileState, same_stat}
use sentinel_linux.Collectors.Integrity.Hashing.{
  Stat, FileProbe, is_regular, is_directory, hash_file,
}

-- What stays the same between scans.
pub record Config : Type 0 where
  pub host_root : String
  pub roots : List String
  pub recursive : Bool
  pub max_hash_bytes : ℕ
  pub max_files : ℕ

-- `under_host_root` of base.py, for normalized paths.
unfoldable pub under_host_root : String → String → String
under_host_root host_root path =
    if str_eq host_root "/" || not (text_starts path "/")
    then path
    else if str_eq path "/"
    then host_root
    else text_append host_root path

-- `_host_path`, for normalized paths.
unfoldable pub host_path : String → String → String
host_path host_root on_disk =
    if str_eq host_root "/"
    then on_disk
    else if str_eq on_disk host_root
    then "/"
    else if text_starts on_disk (text_append host_root "/")
    then text_drop (text_length host_root) on_disk
    else on_disk

-- `Path(current) / filename`
abbrev join_path : String → String → String
join_path current filename =
    if text_ends current "/"
    then text_append current filename
    else text_append current (text_append "/" filename)

-- `_walk`
abbrev in_directory : String × List String → List String
in_directory (current, filenames) = map (join_path current) filenames

unfoldable pub walk : Bool → List (String × List String) → List String
walk recursive [] = []
walk recursive (d ∷ ds) =
    let below = walk recursive ds in in_directory d ++ (if recursive then below else [])

-- What the kernel answers about one watched root.
pub record RootProbe : Type 0 where
  pub lstat : Option Stat
  pub directories : List (String × List String)

pub record World : Type 0 where
  pub time_ns : ℤ
  -- `time.monotonic()`, by the number of files visited so far in the scan
  pub monotonic : ℕ → ℕ
  pub root_probe : String → RootProbe
  pub file_probe : String → FileProbe

pub record ScanState : Type 0 where
  pub snapshot : Dict String FileState
  pub visited : ℕ
  pub hashed : ℕ
  pub hash_reused : ℕ
  pub missing : List String

-- How a scan ends: at its deadline with its partial snapshot unused, or with a snapshot.
pub data Outcome : Type 0 where
  running finished interrupted : ScanState → Outcome

-- The state that a scan leaves, however it ends.
abbrev pub state_of : Outcome → ScanState
state_of (running st) = st
state_of (finished st) = st
state_of (interrupted st) = st

-- `_iter_files`: the files of a root, and the set of missing roots.
abbrev discard : String → List String → List String
discard root missing = keep (λ m. not (str_eq m root)) missing

abbrev iter_files : Bool → String → RootProbe → Option Stat → List String
iter_files recursive root probe none = []
iter_files recursive root probe (some lst) =
    if is_regular lst
    then root ∷ []
    else if is_directory lst
    then walk recursive probe.directories
    else []

abbrev mark_missing : String → Option Stat → List String → List String
mark_missing root none missing = if any (str_eq root) missing then missing else root ∷ missing
mark_missing root (some lst) missing = discard root missing

-- `time.time_ns() - _RACY_WINDOW_NS`, compared with a change time.
abbrev pub is_settled : ℤ → ℤ → Bool
is_settled ctime_ns racy_after_ns = ltb_scaled ctime_ns 1 racy_after_ns 1

-- The fingerprint without its digest.
abbrev pub stat_state : Stat → ℤ → FileState
stat_state lst racy_after_ns = record {
  size = lst.st_size;
  mtime_ns = lst.st_mtime_ns;
  mode = lst.st_mode % 4096;
  sha256 = none;
  ctime_ns = lst.st_ctime_ns;
  inode = lst.st_ino;
  device = lst.st_dev;
  cacheable = is_settled lst.st_ctime_ns racy_after_ns;
  uid = lst.st_uid;
  gid = lst.st_gid;
}

-- What `_snapshot_file` did to obtain a state.
pub data Taken : Type 0 where
  absent : Taken
  reused hashed_now unhashed : FileState → Taken

abbrev pub record_taken : String → Taken → ScanState → ScanState
record_taken key absent st = record st { visited = st.visited + 1 }
record_taken key (reused s) st = record st {
  snapshot = set key s st.snapshot;
  visited = st.visited + 1;
  hash_reused = st.hash_reused + 1;
}
record_taken key (hashed_now s) st = record st {
  snapshot = set key s st.snapshot;
  visited = st.visited + 1;
  hashed = st.hashed + 1;
}
record_taken key (unhashed s) st = record st {
  snapshot = set key s st.snapshot;
  visited = st.visited + 1;
}

abbrev pub past_deadline : Option ℕ → ℕ → Bool
past_deadline none now = false
past_deadline (some at_) now = ltb at_ now

abbrev pub and_then : Outcome → (ScanState → Outcome) → Outcome
and_then (running st) next = next st
and_then (finished st) next = finished st
and_then (interrupted st) next = interrupted st

module _ (digest : List ℕ → String) where
  abbrev pub take_digest : ℕ → FileProbe → Stat → FileState → Taken
  take_digest max_hash_bytes probe lst state =
      if leb lst.st_size max_hash_bytes
      then hashed_now (record state { sha256 = hash_file digest max_hash_bytes probe lst })
      else unhashed state

  abbrev pub with_previous : ℕ → FileProbe → Stat → FileState → Option FileState → Taken
  with_previous max_hash_bytes probe lst state none = take_digest max_hash_bytes probe lst state
  with_previous max_hash_bytes probe lst state (some previous) =
      if previous.cacheable && same_stat previous state
      then reused (record state { sha256 = previous.sha256 })
      else take_digest max_hash_bytes probe lst state

  -- `_snapshot_file`
  unfoldable pub snapshot_file : ℕ → FileProbe → Option FileState → ℤ → Taken
  unfolding hash_file same_stat
  snapshot_file max_hash_bytes probe previous racy_after_ns = elim probe.lstat [
    | none ↦ absent
    | some lst ↦
        if is_regular lst
        then with_previous max_hash_bytes probe lst (stat_state lst racy_after_ns) previous
        else absent
  ]

  module _ (config : Config) (world : World) (racy_after_ns : ℤ) (deadline : Option ℕ)
      (previous : Dict String FileState) where
    unfoldable pub visit : String → ScanState → ScanState
    unfolding snapshot_file host_path get set
    visit path st =
        let key = host_path config.host_root path in
        record_taken key
          (snapshot_file config.max_hash_bytes (world.file_probe path) (get key previous)
            racy_after_ns)
          st

    -- The loop over the files of one root: the deadline is looked at first, then the limit.
    unfoldable pub scan_files : List String → ScanState → Outcome
    unfolding visit
    scan_files [] st = running st
    scan_files (path ∷ paths) st =
        let rest = scan_files paths (visit path st) in
        if past_deadline deadline (world.monotonic st.visited)
        then interrupted st
        else if leb config.max_files (length st.snapshot)
        then finished st
        else rest

    abbrev pub enter_root : String → ScanState → ScanState
    enter_root root st = record st {
      missing = mark_missing root (world.root_probe root).lstat st.missing;
    }

    abbrev pub root_files : String → List String
    root_files root =
        iter_files config.recursive root (world.root_probe root) (world.root_probe root).lstat

    unfoldable pub scan_roots : List String → ScanState → Outcome
    unfolding scan_files walk under_host_root
    scan_roots [] st = finished st
    scan_roots (root ∷ roots) st =
        let on_disk = under_host_root config.host_root root in
        and_then (scan_files (root_files on_disk) (enter_root on_disk st))
          (λ next. scan_roots roots next)

-- ===== src/Tests/Integrity.antt =====
-- Concrete files, and the witnesses of the theorems on the file integrity collector.
use sentinel_linux.Prelude.{
  ℕ, ◌≡◌, refl, min, Bool, true, false, Option, none, some, List, [], ◌∷◌, length, take, drop,
  String, arith,
}
use sentinel_linux.Prelude.Eq.{text_key}
use sentinel_linux.Prelude.Int.{pos}
use sentinel_linux.Prelude.Text.{decimal}
use sentinel_linux.Events.{Event}
use sentinel_linux.Collectors.Integrity.{FileState, file_changes}
use sentinel_linux.Collectors.Integrity.Hashing.{
  Stat, FileProbe, Serves, digest_if_same_file, digest_if_same_file_lem,
}
use sentinel_linux.Collectors.Integrity.Scan.{Config, World}
use sentinel_linux.Collectors.Integrity.Poll.{FileIntegrityCollector, scan, drain_once}
use sentinel_linux.Collectors.Integrity.Diff.{attributes, SameContent, quiet-SameContent}
use sentinel_linux.Collectors.Integrity.Watch.{Polled, drain_once-Polled}

abbrev digest : List ℕ → String
digest bytes = decimal (length bytes)

abbrev content : List ℕ
content = 104 ∷ 105 ∷ 10 ∷ []

-- A descriptor that returns two bytes at a time.
abbrev by_two : ℕ → ℕ → Option (List ℕ)
by_two offset asked = some (take (min asked 2) (drop offset content))

by_two-Serves : Serves content by_two
by_two-Serves = record {
  count = λ offset asked. min asked 2;
  reads = λ offset asked. refl;
  at_most = λ offset asked. omega arith;
  some_byte = λ offset asked h k. omega arith;
}

abbrev passwd : Stat
passwd = record {
  st_mode = 0x81a4;
  st_size = 3;
  st_mtime_ns = pos 1000;
  st_ctime_ns = pos 1000;
  st_ino = 7;
  st_dev = 1;
  st_uid = 0;
  st_gid = 0;
}

digest_if_same_file_lem_example :
    digest_if_same_file digest 3 passwd passwd by_two ≡ some (digest content)
digest_if_same_file_lem_example =
    digest_if_same_file_lem digest by_two content by_two-Serves 3 passwd passwd refl refl refl

over_the_limit : digest_if_same_file digest 2 passwd passwd by_two ≡ none
unfolding digest_if_same_file
over_the_limit = refl

abbrev probe : FileProbe
probe = record { lstat = some passwd; opened = some passwd; read = by_two }

abbrev earlier : FileState
earlier = record {
  size = 3;
  mtime_ns = pos 1000;
  mode = 420;
  sha256 = some "3";
  ctime_ns = pos 1000;
  inode = 7;
  device = 1;
  cacheable = true;
  uid = 0;
  gid = 0;
}

quiet-SameContent_example : (attributes earlier ≡ attributes earlier) × SameContent earlier earlier
unfolding file_changes
quiet-SameContent_example = quiet-SameContent "/etc/passwd" earlier earlier refl

abbrev config : Config
config = record {
  host_root = "/";
  roots = "/etc/passwd" ∷ [];
  recursive = true;
  max_hash_bytes = 100;
  max_files = 10;
}

abbrev world : World
world = record {
  time_ns = pos 9000000000;
  monotonic = λ visited. visited;
  root_probe = λ root. record { lstat = some passwd; directories = [] };
  file_probe = λ path. probe;
}

-- The same file with its permissions changed.
abbrev opened_up : World
opened_up = record world {
  file_probe = λ path. record probe { lstat = some (record passwd { st_mode = 0x81ff }) };
}

abbrev collector : FileIntegrityCollector
collector = record {
  host = "web1";
  config = config;
  baseline = ("/etc/passwd", earlier) ∷ [];
  seeded = true;
  emitter = record { normalizer = record { dead_letters = 0; normalized = 0 }; emitted = 0 };
  hashed = 0;
  hash_reused = 0;
  missing = [];
  scan_deadline = none;
  stopping = false;
}

abbrev unchanged : String → String
unchanged s = s

abbrev accepts : Event → Bool
accepts e = true

abbrev clock : ℕ → ℕ
clock n = n

drain_once-Polled_example :
    Polled
      (scan digest opened_up collector)
      collector
      (drain_once unchanged unchanged "localhost" accepts digest opened_up clock collector)
drain_once-Polled_example =
    drain_once-Polled unchanged unchanged "localhost" accepts clock digest opened_up collector

-- ===== src/Collectors/Integrity/Scan/Cache.antt =====
-- The stat cache of integrity.py: when the digest of an earlier scan is used again.
use sentinel_linux.Prelude.{ℕ, ◌≡◌, true, false, Option, none, some, List, String, leb}
use sentinel_linux.Prelude.Int.{ℤ}
use sentinel_linux.Collectors.Integrity.{FileState}
use sentinel_linux.Collectors.Integrity.Hashing.{Stat, FileProbe, is_regular, hash_file}
use sentinel_linux.Collectors.Integrity.Scan.{Taken, absent, reused, hashed_now, unhashed}

-- The file is as the previous scan saw it, which trusted its change time.
pub record Trusted (lst : Stat) (previous : FileState) (s : FileState) : Type 0 where
  pub trusted : previous.cacheable ≡ true
  pub same_size : previous.size ≡ lst.st_size
  pub same_mtime : previous.mtime_ns ≡ lst.st_mtime_ns
  pub same_ctime : previous.ctime_ns ≡ lst.st_ctime_ns
  pub same_inode : previous.inode ≡ lst.st_ino
  pub same_device : previous.device ≡ lst.st_dev
  pub same_digest : s.sha256 ≡ previous.sha256

module _ (digest : List ℕ → String) (max_hash_bytes : ℕ) (probe : FileProbe) (racy : ℤ) where
  -- Every way in which `_snapshot_file` gives a state, and why.
  abbrev pub Explained : Option FileState → Stat → Taken → Type 0
  Explained previous lst absent = is_regular lst ≡ false
  Explained previous lst (reused s) = (p : FileState) × (previous ≡ some p) × Trusted lst p s
  Explained previous lst (hashed_now s) =
      (leb lst.st_size max_hash_bytes ≡ true)
      × (s.sha256 ≡ hash_file digest max_hash_bytes probe lst)
  Explained previous lst (unhashed s) = (leb lst.st_size max_hash_bytes ≡ false) × (s.sha256 ≡ none)

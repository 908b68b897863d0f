-- ===== src/Collectors/Integrity.antt =====
-- src/sentinel/collectors/integrity.py: the fingerprints of files and what makes two of them differ.
-- The children model the hashing of one file (Hashing), the scan (Scan) and the poll (Poll).
pub mod Hashing
pub mod Scan
pub mod Poll
pub mod Diff
pub mod Watch
use sentinel_linux.Prelude.{
  ℕ, zero, suc, ◌+◌, ◌*◌, ◌/◌, ◌%◌, Bool, true, false, ◌&&◌, ◌||◌, not, Option, none, some, List,
  [], ◌∷◌, ◌++◌, if◌then◌else◌, String, eqb,
}
use sentinel_linux.Prelude.Eq.{KeyEq, ◌==◌, text_key, nat_key, int_key}
use sentinel_linux.Prelude.Int.{ℤ, pos, negsuc, ltb_scaled}
use sentinel_linux.Prelude.Text.{text_append, text_join, decimal}
use sentinel_linux.Dict.{Dict}
use sentinel_linux.RawEvents.{Common, RawEvent, RawFileEvent, file_event, valid_file, max_path}
use sentinel_linux.Collectors.Clip.{clip}
use sentinel_linux.Collectors.Snapshot.{seen_now, no_longer}

-- `_FileState`
pub record FileState : Type 0 where
  pub size : ℕ
  pub mtime_ns : ℤ
  pub mode : ℕ
  pub sha256 : Option String
  pub ctime_ns : ℤ
  pub inode : ℕ
  pub device : ℕ
  pub cacheable : Bool
  pub uid : ℕ
  pub gid : ℕ

-- `_FileState.same_stat`
unfoldable pub same_stat : FileState → FileState → Bool
same_stat s other =
    s.size == other.size
    && s.mtime_ns == other.mtime_ns
    && s.ctime_ns == other.ctime_ns
    && s.inode == other.inode
    && s.device == other.device

-- `_content_changed`
abbrev pub is_set : ℤ → Bool
is_set t = not (t == pos 0)

abbrev pub drifted : FileState → FileState → Bool
drifted old new =
    if not (old.size == new.size) || not (old.mtime_ns == new.mtime_ns)
    then true
    else (is_set old.ctime_ns && is_set new.ctime_ns) && not (old.ctime_ns == new.ctime_ns)

abbrev pub content_by : Option String → Option String → Bool → Bool
content_by (some old) (some new) drift = not (old == new)
content_by (some old) none drift = drift
content_by none new drift = drift

unfoldable pub content_changed : FileState → FileState → Bool
content_changed old new = content_by old.sha256 new.sha256 (drifted old new)

-- `_attributes_changed`
unfoldable pub attributes_changed : FileState → FileState → Bool
attributes_changed old new = not (old.mode == new.mode && old.uid == new.uid && old.gid == new.gid)

-- `str(n)` of an integer.
abbrev int_text : ℤ → String
int_text (pos n) = decimal n
int_text (negsuc n) = text_append "-" (decimal (n + 1))

-- `f"{mode:04o}"` of permission bits, which are below 8 ^ 4.
abbrev pub octal : ℕ → String
octal mode = text_join "" (
    decimal (mode / 512)
    ∷ decimal (mode / 64 % 8)
    ∷ decimal (mode / 8 % 8)
    ∷ decimal (mode % 8)
    ∷ [])

-- `_fingerprint`; an empty digest would count as none, and no digest is empty.
abbrev content_text : FileState → Option String → String
content_text s (some digest) = digest
content_text s none = text_join ":" (decimal s.size ∷ int_text s.mtime_ns ∷ [])

unfoldable pub fingerprint : FileState → String
fingerprint s = text_join ":" (content_text s s.sha256 ∷ int_text s.ctime_ns ∷ decimal s.inode ∷ [])

unfoldable pub attribute_seed : FileState → String
attribute_seed s =
    text_join ":" (octal s.mode ∷ decimal s.uid ∷ decimal s.gid ∷ int_text s.ctime_ns ∷ [])

-- What `_diff` finds: one record to build for each.
pub data FileChange : Type 0 where
  created modified attrs_modified deleted : String → FileState → FileChange

abbrev pub cons_if : {A : Type 0} → Bool → A → List A → List A
cons_if true x xs = x ∷ xs
cons_if false x xs = xs

-- The body of the loop over the new snapshot: content and attributes are compared independently.
unfoldable pub file_changes : String → Option FileState → FileState → List FileChange
unfolding content_changed attributes_changed
file_changes path none s = created path s ∷ []
file_changes path (some previous) s =
    cons_if (content_changed previous s) (modified path s)
      (cons_if (attributes_changed previous s) (attrs_modified path s) [])

abbrev pub file_gone : String → FileState → FileChange
file_gone path previous = deleted path previous

-- `_diff`
unfoldable pub diff : Dict String FileState → Dict String FileState → List FileChange
unfolding seen_now no_longer file_changes
diff old new = seen_now file_changes old new ++ no_longer file_gone new old

-- `_raw`, for each of the four kinds; `none` is what the raw model rejects.
abbrev accept : RawFileEvent → Option RawEvent
accept raw = if valid_file raw then some (file_event raw) else none

module _ (os_text : String → String) where
  unfoldable pub raw : String → ℕ → String → ℕ → String → String → FileState → Option RawEvent
  unfolding valid_file clip
  raw host now action severity seed path s = accept (record {
    common = record { occurred_at = now; host = host; action = action; severity = severity };
    path = clip (os_text path) max_path;
    size = s.size;
    mode = octal s.mode;
    sha256 = s.sha256;
    id_seed = seed;
  })

  unfoldable pub raw_of_change : String → ℕ → FileChange → Option RawEvent
  unfolding raw fingerprint attribute_seed
  raw_of_change host now (created path s) = raw host now "file_created" 3 (fingerprint s) path s
  raw_of_change host now (modified path s) = raw host now "file_modified" 4 (fingerprint s) path s
  raw_of_change host now (attrs_modified path s) =
      raw host now "file_attributes_modified" 5 (attribute_seed s) path s
  raw_of_change host now (deleted path s) = raw host now "file_deleted" 5 (fingerprint s) path s

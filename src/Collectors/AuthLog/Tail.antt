-- ===== src/Collectors/AuthLog/Tail.antt =====
-- The open file of authlog.py. A file is its identity (inode and device) and its bytes; what a poll
-- sees of the file system stays the same during that poll. A handle stays readable after its file was
-- renamed or removed, so a poll also knows the bytes behind every identity.
pub mod Rotation
use sentinel_linux.Prelude.{
  ℕ, zero, suc, ◌+◌, ◌-◌, ◌^◌, Bool, true, false, not, Option, none, some, List, [], ◌∷◌, ◌++◌,
  length, take, drop, if◌then◌else◌, eqb, ltb, leb,
}
use sentinel_linux.Collectors.AuthLog.Lines.{Pending, split, flush_partial}

abbrev pub max_read : ℕ
max_read = 2 ^ 20

-- What is at the log's path: nothing, a file that cannot be opened, or one that can.
pub data Entry : Type 0 where
  absent : Entry
  unreadable readable : ℕ → Entry

pub record Files : Type 0 where
  pub entry : Entry
  pub bytes : ℕ → List ℕ

pub record Tail : Type 0 where
  pub handle : Option ℕ
  pub pos : ℕ
  pub pending : Pending
  pub skip_history : Bool
  pub source_available : Bool
  -- whether `_seen` was cleared, which a truncation does
  pub rewound : Bool

-- Whether the bytes end in a newline; `handle.read(1)` one byte before the end.
abbrev ends_line : List ℕ → Bool
ends_line [] = true
ends_line (b ∷ []) = eqb b 10
ends_line (b ∷ c ∷ bytes) = ends_line (c ∷ bytes)

abbrev is_empty : List ℕ → Bool
is_empty [] = true
is_empty (b ∷ bytes) = false

-- `_open`: the state and the identity opened; an entry that cannot be opened raises.
pub data Opened : Type 0 where
  opened : ℕ → Tail → Opened
  missing denied : Tail → Opened

-- The first opening starts at the end: what stands there already is history.
abbrev pub at_end : List ℕ → Tail → Tail
at_end bytes t = record t {
  skip_history = false;
  pos = length bytes;
  pending = record (t.pending) {
    discarding = if is_empty bytes then t.pending.discarding else not (ends_line bytes);
  };
}

abbrev pub open_readable : Files → ℕ → Tail → Bool → Opened
open_readable files id t true = opened id (at_end (files.bytes id) (record t { handle = some id }))
open_readable files id t false = opened id (record t { handle = some id })

abbrev pub open_entry : Files → Entry → Tail → Opened
open_entry files absent t = missing (record t { skip_history = false; source_available = false })
open_entry files (unreadable id) t = denied t
open_entry files (readable id) t = open_readable files id t t.skip_history

unfoldable pub open_log : Files → Tail → Opened
open_log files t = open_entry files files.entry t

-- The result of `_read_new_lines`: the lines, or an OSError.
pub data Read : Type 0 where
  lines : Tail → List (List ℕ) → Read
  failed : Tail → Read

-- `_close`
abbrev pub close : Tail → Tail
close t = record t { handle = none }

-- A rotated file is closed: its last line is taken even without its newline.
abbrev pub leave : Tail → Tail × List (List ℕ)
leave t =
    let f = flush_partial t.pending in (record t { handle = none; pos = 0; pending = f.0 }, f.1)

-- A truncated file is read from its start again.
abbrev pub rewind : Tail → Tail
rewind t = record t {
  pos = 0;
  pending = record (t.pending) { buf = []; discarding = false };
  rewound = true;
}

-- What the new file gives is appended to the old one's last line; if it cannot be opened, that line is
-- kept and the new file is left for the next poll.
abbrev pub after_tail : List (List ℕ) → Read → Read
after_tail tail (lines t ls) = lines t (tail ++ ls)
after_tail tail (failed t) = lines (record t { source_available = false }) tail

abbrev pub cons_lines : List (List ℕ) → Read → Read
cons_lines first (lines t ls) = lines t (first ++ ls)
cons_lines first (failed t) = failed t

abbrev pub truncated : Files → ℕ → Tail → Read
truncated files id t =
    if ltb (length (files.bytes id)) t.pos then lines (rewind t) [] else lines t []

module _ (files : Files) (again : Tail → Read) where
  -- `_follow_rotation`, at the end of the file `id`.
  abbrev pub follow_entry : Entry → ℕ → Tail → Read
  follow_entry absent id t = lines t []
  follow_entry (unreadable other) id t =
      let l = leave t in if eqb other id then truncated files id t else after_tail l.1 (again l.0)
  follow_entry (readable other) id t =
      let l = leave t in if eqb other id then truncated files id t else after_tail l.1 (again l.0)

  unfoldable pub read_open : ℕ → Tail → Read
  read_open id t =
      let chunk = take max_read (drop t.pos (files.bytes id)) in
      let cut = split chunk t.pending in
      let t' = record t { pos = t.pos + length chunk; pending = cut.0 } in
      if ltb (length chunk) max_read
      then cons_lines cut.1 (follow_entry files.entry id t')
      else lines t' cut.1

  abbrev pub read_opened : Opened → Read
  read_opened (opened id t) = read_open id t
  read_opened (missing t) = lines t []
  read_opened (denied t) = failed t

  abbrev pub read_handle : Option ℕ → Tail → Read
  unfolding open_log
  read_handle (some id) t = read_open id t
  read_handle none t = read_opened (open_log files t)

-- `_read_new_lines`. It calls itself once a file was rotated in: on fuel, of which two rounds suffice.
unfoldable pub read_lines : ℕ → Files → Tail → Read
unfolding read_open open_log
read_lines zero files t = lines t []
read_lines (suc fuel) files t = read_handle files (λ next. read_lines fuel files next) t.handle t

unfoldable pub read_new_lines : Files → Tail → Read
unfolding read_lines
read_new_lines files t = read_lines 2 files t

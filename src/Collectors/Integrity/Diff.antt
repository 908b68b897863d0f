-- ===== src/Collectors/Integrity/Diff.antt =====
-- The records of integrity.py, taken as a log: which files there are, with which permissions and
-- owner, from one snapshot to the next.
use sentinel_linux.Prelude.{
  ◌⊎◌, ℕ, ◌≡◌, refl, ap, Bool, true, false, Option, none, some, [], ◌∷◌, All, String, inl, inr,
  arith,
}
use sentinel_linux.Prelude.Eq.{text_key, nat_key, int_key}
use sentinel_linux.Prelude.Int.{pos, int_same_iff}
use text.Mathlib.TextEquality.{eq_iff}
use sentinel_linux.Dict.{Dict, Distinct}
use sentinel_linux.Collectors.Snapshot.{Entries}
use sentinel_linux.Collectors.Snapshot.Replay.{ChangeLaws, played, played-diff, table}
use sentinel_linux.Collectors.Integrity.{
  FileState, FileChange, created, modified, attrs_modified, deleted, file_changes, file_gone, diff,
  content_changed, attributes_changed, content_by, drifted, cons_if,
}

-- What a reader of the records knows of a path: the permission bits and the owner.
abbrev pub Attributes : Type 0
Attributes = ℕ × ℕ × ℕ

abbrev pub attributes : FileState → Attributes
attributes s = (s.mode, s.uid, s.gid)

abbrev pub path_of : FileChange → String
path_of (created path s) = path
path_of (modified path s) = path
path_of (attrs_modified path s) = path
path_of (deleted path s) = path

-- The record of a change of content says nothing of the attributes; the others do.
abbrev pub learn : FileChange → Option Attributes → Option Attributes
learn (created path s) o = some (attributes s)
learn (modified path s) o = o
learn (attrs_modified path s) o = some (attributes s)
learn (deleted path s) o = none

abbrev Any : String → FileState → Type 0
Any path s = Unit

same_attributes : (u v : FileState) → attributes_changed u v ≡ false → attributes u ≡ attributes v
unfolding attributes_changed
same_attributes u v h = ground (arith, h)

file_laws : ChangeLaws Any attributes path_of learn file_changes file_gone
unfolding file_changes
file_laws = record {
  first = λ k v p. (refl, tt);
  again = λ k u v p q. about k v (content_changed u v) (attributes_changed u v);
  opened = λ k v p. rw ((eq_iff k k).1 refl) refl;
  updated = λ k u v p q.
      learned k u v (content_changed u v) (attributes_changed u v) (same_attributes u v);
  left = λ k v p. refl;
  closed = λ k v p. refl;
}
  where
    about :
        (k : String) (v : FileState) (b c : Bool)
        → All (λ x. path_of x ≡ k) (cons_if b (modified k v) (cons_if c (attrs_modified k v) []))
    about k v true true = (refl, (refl, tt))
    about k v true false = (refl, tt)
    about k v false true = (refl, tt)
    about k v false false = tt

    learned :
        (k : String) (u v : FileState) (b c : Bool)
        → (c ≡ false → attributes u ≡ attributes v)
        → played path_of learn k
            (cons_if b (modified k v) (cons_if c (attrs_modified k v) []))
            (some (attributes u))
          ≡ some (attributes v)
    learned k u v true true h = rw ((eq_iff k k).1 refl) refl
    learned k u v true false h = rw ((eq_iff k k).1 refl) (ap some (h refl))
    learned k u v false true h = rw ((eq_iff k k).1 refl) refl
    learned k u v false false h = ap some (h refl)

Any-Entries : (d : Dict String FileState) → Entries Any d
Any-Entries [] = tt
Any-Entries (kv ∷ d) = (tt, Any-Entries d)

pub diff-replays :
    (path : String) (old new : Dict String FileState)
    → Distinct old
    → Distinct new
    → played path_of learn path (diff old new) (table attributes old path)
      ≡ table attributes new path
unfolding diff
diff-replays path old new ho hn =
    played-diff Any attributes path_of learn file_changes file_gone file_laws path old new
      (Any-Entries old) (Any-Entries new) ho hn

-- The content is the same as far as the collector can tell.
abbrev pub SameContent : FileState → FileState → Type 0
SameContent u v =
    ((d : String) × (u.sha256 ≡ some d) × (v.sha256 ≡ some d))
    ⊎ ((u.size ≡ v.size)
        × (u.mtime_ns ≡ v.mtime_ns)
        × ((u.ctime_ns ≡ pos 0) ⊎ ((v.ctime_ns ≡ pos 0) ⊎ (u.ctime_ns ≡ v.ctime_ns))))

undrifted :
    (u v : FileState)
    → drifted u v ≡ false
    → (u.size ≡ v.size)
      × (u.mtime_ns ≡ v.mtime_ns)
      × ((u.ctime_ns ≡ pos 0) ⊎ ((v.ctime_ns ≡ pos 0) ⊎ (u.ctime_ns ≡ v.ctime_ns)))
undrifted u v h = ground (
  arith,
  h,
  int_same_iff u.mtime_ns v.mtime_ns,
  int_same_iff u.ctime_ns v.ctime_ns,
  int_same_iff u.ctime_ns (pos 0),
  int_same_iff v.ctime_ns (pos 0),
)

same_content :
    (u v : FileState) (o p : Option String)
    → u.sha256 ≡ o
    → v.sha256 ≡ p
    → content_by o p (drifted u v) ≡ false
    → SameContent u v
same_content u v (some d) (some e) ho hp h = inl (d, ho, ground (arith, eq_iff d e, hp, h))
same_content u v (some d) none ho hp h = inr (undrifted u v h)
same_content u v none p ho hp h = inr (undrifted u v h)

-- A file of which a poll reports nothing has the permissions and the owner that it had, and either
-- the digest that it had, or its size and both its times, where a change time is known.
pub quiet-SameContent :
    (path : String) (u v : FileState)
    → file_changes path (some u) v ≡ []
    → (attributes u ≡ attributes v) × SameContent u v
unfolding file_changes content_changed
quiet-SameContent path u v h =
    let p = silent (content_changed u v) (attributes_changed u v) h in
    (same_attributes u v p.1, same_content u v u.sha256 v.sha256 refl refl p.0)
  where
    silent :
        (b c : Bool)
        → cons_if b (modified path v) (cons_if c (attrs_modified path v) []) ≡ []
        → (b ≡ false) × (c ≡ false)
    silent true c e = cc
    silent false true e = cc
    silent false false e = (refl, refl)

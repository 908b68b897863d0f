-- ===== src/Collectors/Integrity/Hashing.antt =====
-- The hashing of one file in integrity.py. The digest SHA-256 is a parameter over the bytes, and so
-- are the answers of the kernel: `lstat`, the `fstat` of the opened descriptor, and `os.read` at an
-- offset, which may return fewer bytes than asked (`none` is an OSError).
use sentinel_linux.Prelude.{
  ℕ, zero, suc, ◌+◌, ◌-◌, ◌/◌, ◌%◌, ◌≤◌, ◌<◌, ◌≡◌, refl, sym, ap, ◌∙◌, min, Bool, true, false, ◌&&◌,
  Option, none, some, List, [], ◌∷◌, ◌++◌, length, take, drop, if◌then◌else◌, String, eqb, eqb_iff,
  leb, arith, append-nil, append_assoc, length-take-le, length-append, take-append-drop,
}
use sentinel_linux.Prelude.Int.{ℤ}

-- The fields of `os.stat_result` that the collector reads.
pub record Stat : Type 0 where
  pub st_mode : ℕ
  pub st_size : ℕ
  pub st_mtime_ns : ℤ
  pub st_ctime_ns : ℤ
  pub st_ino : ℕ
  pub st_dev : ℕ
  pub st_uid : ℕ
  pub st_gid : ℕ

-- `stat.S_ISREG`, `stat.S_ISDIR`
abbrev pub is_regular : Stat → Bool
is_regular s = eqb (s.st_mode % 65536 / 4096) 8

abbrev pub is_directory : Stat → Bool
is_directory s = eqb (s.st_mode % 65536 / 4096) 4

-- What the kernel answers about one path.
pub record FileProbe : Type 0 where
  pub lstat : Option Stat
  pub opened : Option Stat
  pub read : ℕ → ℕ → Option (List ℕ)

abbrev pub hash_chunk : ℕ
hash_chunk = 65536

-- What the loop does with a chunk: an error is no digest, an empty chunk ends the file.
abbrev pub chunk_cases : Option (List ℕ) → Option String → (List ℕ → Option String) → Option String
chunk_cases none at_end more = none
chunk_cases (some []) at_end more = at_end
chunk_cases (some (b ∷ bytes)) at_end more = more (b ∷ bytes)

module _ (digest : List ℕ → String) (read : ℕ → ℕ → Option (List ℕ)) where
  -- `while remaining > 0`: the bytes so far are those that the digest was updated with, and their
  -- number is the offset. Each round reads a byte at least, so `remaining` rounds suffice.
  unfoldable pub digest_loop : ℕ → ℕ → List ℕ → Option String
  digest_loop zero remaining bytes = none
  digest_loop (suc fuel) remaining bytes =
      if eqb remaining 0
      then none
      else chunk_cases (read (length bytes) (min hash_chunk remaining)) (some (digest bytes))
          (λ chunk. digest_loop fuel (remaining - length chunk) (bytes ++ chunk))

-- `_digest_if_same_file`, with a round more than the bytes that may be read.
unfoldable pub digest_if_same_file :
    (List ℕ → String) → ℕ → Stat → Stat → (ℕ → ℕ → Option (List ℕ)) → Option String
unfolding digest_loop
digest_if_same_file digest max_hash_bytes expected opened read =
    if is_regular opened && (eqb opened.st_ino expected.st_ino && eqb opened.st_dev expected.st_dev)
    then digest_loop digest read (max_hash_bytes + 2) (max_hash_bytes + 1) []
    else none

-- `_hash_file`
unfoldable pub hash_file : (List ℕ → String) → ℕ → FileProbe → Stat → Option String
unfolding digest_if_same_file
hash_file digest max_hash_bytes probe expected = elim probe.opened [
  | none ↦ none
  | some opened ↦ digest_if_same_file digest max_hash_bytes expected opened probe.read
]

-- A descriptor on a file whose content stays as it is while it is read: a read gives the next bytes,
-- at least one where there is one, and no more than asked.
pub record Serves (content : List ℕ) (read : ℕ → ℕ → Option (List ℕ)) : Type 0 where
  pub count : ℕ → ℕ → ℕ
  pub reads :
      (offset asked : ℕ)
      → read offset asked ≡ some (take (count offset asked) (drop offset content))
  pub at_most : (offset asked : ℕ) → count offset asked ≤ asked
  pub some_byte : (offset asked : ℕ) → 1 ≤ asked → offset < length content → 1 ≤ count offset asked

drop-append : {A : Type 0} (xs ys : List A) → drop (length xs) (xs ++ ys) ≡ ys
drop-append [] ys = refl
drop-append (x ∷ xs) ys = drop-append xs ys

module _ (digest : List ℕ → String) (read : ℕ → ℕ → Option (List ℕ)) (content : List ℕ)
    (serves : Serves content read) (max_hash_bytes : ℕ) where
  -- The digest of the whole content, if it is not over the limit.
  abbrev pub expected_digest : Option String
  expected_digest = if leb (length content) max_hash_bytes then some (digest content) else none

  -- What the next read answers, the bytes so far and the rest being the content.
  next_read :
      (bytes rest : List ℕ) (asked : ℕ)
      → bytes ++ rest ≡ content
      → read (length bytes) asked ≡ some (take (serves.count (length bytes) asked) rest)
  next_read bytes rest asked h =
      serves.reads (length bytes) asked
      ∙ ap (λ r. some (take (serves.count (length bytes) asked) r))
          (ap (drop (length bytes)) (sym h) ∙ drop-append bytes rest)

  digest_loop_lem :
      (fuel remaining : ℕ) (bytes rest : List ℕ)
      → bytes ++ rest ≡ content
      → remaining + length bytes ≡ max_hash_bytes + 1
      → remaining < fuel
      → digest_loop digest read fuel remaining bytes ≡ expected_digest
  unfolding digest_loop
  digest_loop_lem zero remaining bytes rest h r lt = absurd (omega arith)
  digest_loop_lem (suc fuel) zero bytes rest h r lt =
      let size = ap length (sym h) ∙ length-append bytes rest in
      rw (over (length content) (omega (arith, size, r))) refl
    where
      over : (n : ℕ) → max_hash_bytes < n → leb n max_hash_bytes ≡ false
      over n e = ground arith
  digest_loop_lem (suc fuel) (suc remaining) bytes [] h r lt =
      let whole : bytes ≡ content = sym (append-nil bytes) ∙ h in
      rw (next_read bytes [] (min hash_chunk (suc remaining)) h) (
        rw
          (
            positive remaining,
            empty_take (serves.count (length bytes) (min hash_chunk (suc remaining))),
          )
          (end_of_file whole))
    where
      positive : (n : ℕ) → eqb (suc n) 0 ≡ false
      positive n = ground arith

      empty_take : (k : ℕ) → take {A = ℕ} k [] ≡ []
      empty_take zero = refl
      empty_take (suc k) = refl

      fits : (n : ℕ) → suc remaining + n ≡ max_hash_bytes + 1 → leb n max_hash_bytes ≡ true
      fits n e = ground arith

      end_of_file : bytes ≡ content → some (digest bytes) ≡ expected_digest
      end_of_file whole = rw (← whole) (rw (fits (length bytes) r) refl)
  digest_loop_lem (suc fuel) (suc remaining) bytes (x ∷ rest) h r lt =
      rw (next_read bytes (x ∷ rest) (min hash_chunk (suc remaining)) h) (
        rw (positive remaining) (
          progress (serves.count (length bytes) (min hash_chunk (suc remaining)))
            (serves.some_byte (length bytes) (min hash_chunk (suc remaining)) (omega arith)
              (omega (arith, size)))
            (omega (arith, serves.at_most (length bytes) (min hash_chunk (suc remaining))))
            (λ left bytes' rest'. digest_loop_lem fuel left bytes' rest')))
    where
      positive : (n : ℕ) → eqb (suc n) 0 ≡ false
      positive n = ground arith

      size : length content ≡ length bytes + length (x ∷ rest)
      size = ap length (sym h) ∙ length-append bytes (x ∷ rest)

      progress :
          (k : ℕ)
          → 1 ≤ k
          → k ≤ suc remaining
          → ((left : ℕ) (bytes' rest' : List ℕ)
              → bytes' ++ rest' ≡ content
              → left + length bytes' ≡ max_hash_bytes + 1
              → left < fuel
              → digest_loop digest read fuel left bytes' ≡ expected_digest)
          → chunk_cases (some (take k (x ∷ rest))) (some (digest bytes)) (λ chunk.
            digest_loop digest read fuel (suc remaining - length chunk) (bytes ++ chunk))
            ≡ expected_digest
      progress zero pos le ih = absurd (omega arith)
      progress (suc k) pos le ih =
          let chunk = x ∷ take k rest in
          let taken = length-take-le k rest in
          ih (suc remaining - length chunk) (bytes ++ chunk) (drop k rest)
            (append_assoc bytes chunk (drop k rest)
              ∙ ap (λ t. bytes ++ x ∷ t) (take-append-drop k rest)
              ∙ h)
            (omega (arith, r, taken, le, length-append bytes chunk)) (omega (arith, lt, taken, le))

  -- Over a file that stays the same while it is read, in however small pieces the kernel returns it,
  -- the loop ends within its rounds with the digest of the whole content if that is within the limit,
  -- and with none if it is not.
  pub digest_if_same_file_lem :
      (expected opened : Stat)
      → is_regular opened ≡ true
      → opened.st_ino ≡ expected.st_ino
      → opened.st_dev ≡ expected.st_dev
      → digest_if_same_file digest max_hash_bytes expected opened read
        ≡ (if leb (length content) max_hash_bytes then some (digest content) else none)
  unfolding digest_if_same_file
  digest_if_same_file_lem expected opened reg ino dev =
      rw
        (
          reg,
          (eqb_iff opened.st_ino expected.st_ino).1 ino,
          (eqb_iff opened.st_dev expected.st_dev).1 dev,
        )
        (digest_loop_lem (max_hash_bytes + 2) (max_hash_bytes + 1) [] content refl (omega arith)
          (omega arith))

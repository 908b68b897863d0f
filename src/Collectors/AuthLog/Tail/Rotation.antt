-- ===== src/Collectors/AuthLog/Tail/Rotation.antt =====
-- Rotation of the auth log: two rounds of reading suffice, and no line is lost.
use sentinel_linux.Prelude.{
  ℕ, suc, ◌+◌, ◌<◌, ◌≡◌, refl, sym, ap, ◌∙◌, Bool, true, false, Option, none, some, List, [], ◌∷◌,
  ◌++◌, length, take, drop, take_all, lt→ltb, if◌then◌else◌, eqb, eqb_iff, ltb, keep, arith,
  append-nil, keep-append,
}
use sentinel_linux.Collectors.AuthLog.Lines.{
  max_line_len, Pending, split, split_lines, flush_partial,
}
use sentinel_linux.Collectors.AuthLog.Lines.Chunks.{
  Stands, NoNewline, prepend_nil, kept, dropped, is_short, prepend, split-Stands,
  split_lines-append,
}
use sentinel_linux.Collectors.AuthLog.Tail.{
  Files, Entry, absent, unreadable, readable, Tail, Read, lines, max_read, open_log, open_entry,
  open_readable, read_open, read_opened, read_handle, read_lines, read_new_lines, follow_entry,
  leave, at_end, after_tail, cons_lines, truncated,
}

module _ (files : Files) where
  reads_itself :
      (f g : Tail → Read) (id : ℕ) (t : Tail)
      → files.entry ≡ readable id
      → read_open files f id t ≡ read_open files g id t
  unfolding read_open
  reads_itself f g id t h = rw (h, (eqb_iff id id).1 refl) refl

  -- A newly opened file is the one at the path: it is not followed further.
  fresh_open :
      (f g : Tail → Read) (e : Entry) (t : Tail)
      → files.entry ≡ e
      → read_opened files f (open_entry files e t) ≡ read_opened files g (open_entry files e t)
  fresh_open f g absent t h = refl
  fresh_open f g (unreadable id) t h = refl
  fresh_open f g (readable id) t h = go t.skip_history
    where
      go :
          (b : Bool)
          → read_opened files f (open_readable files id t b)
            ≡ read_opened files g (open_readable files id t b)
      go true = reads_itself f g id (at_end (files.bytes id) (record t { handle = some id })) h
      go false = reads_itself f g id (record t { handle = some id }) h

  again_equal :
      (f g : Tail → Read)
      → ((t : Tail) → t.handle ≡ none → f t ≡ g t)
      → (e : Entry) (id : ℕ) (t : Tail) → follow_entry files f e id t ≡ follow_entry files g e id t
  again_equal f g h absent id t = refl
  again_equal f g h (unreadable other) id t =
      ap (λ r. if eqb other id then truncated files id t else after_tail (leave t).1 r)
        (h (leave t).0 refl)
  again_equal f g h (readable other) id t =
      ap (λ r. if eqb other id then truncated files id t else after_tail (leave t).1 r)
        (h (leave t).0 refl)

  handle_equal :
      (f g : Tail → Read)
      → ((t : Tail) → t.handle ≡ none → f t ≡ g t)
      → (h : Option ℕ) (t : Tail) → read_handle files f h t ≡ read_handle files g h t
  unfolding read_open open_log
  handle_equal f g h none t = fresh_open f g files.entry t refl
  handle_equal f g h (some id) t =
      let chunk = take max_read (drop t.pos (files.bytes id)) in
      let cut = split chunk t.pending in
      let next = record t { pos = t.pos + length chunk; pending = cut.0 } in
      ap (λ r. if ltb (length chunk) max_read then cons_lines cut.1 r else lines next cut.1)
        (again_equal f g h files.entry id next)

  reopened :
      (m n : ℕ) (t : Tail)
      → t.handle ≡ none
      → read_lines (suc m) files t ≡ read_lines (suc n) files t
  unfolding read_lines open_log
  reopened m n t h =
      let f = λ (next : Tail). read_lines m files next in
      let g = λ (next : Tail). read_lines n files next in
      ap (λ x. read_handle files f x t) h
      ∙ fresh_open f g files.entry t refl
      ∙ sym (ap (λ x. read_handle files g x t) h)

  -- The reading calls itself at most once: with more rounds it gives the same.
  pub read_lines-fuel :
      (more : ℕ) (t : Tail) → read_lines (suc (suc more)) files t ≡ read_new_lines files t
  unfolding read_lines read_new_lines
  read_lines-fuel more t =
      handle_equal (λ next. read_lines (suc more) files next) (λ next. read_lines 1 files next)
        (λ next h. reopened more 0 next h) t.handle t

-- The line that a file ends with, without its newline.
abbrev pub last_line : List ℕ → List (List ℕ)
last_line [] = []
last_line (b ∷ bytes) = (b ∷ bytes) ∷ []

flush_lem :
    (p : List ℕ) (st : Pending)
    → Stands p st
    → keep is_short (flush_partial st).1 ≡ keep is_short (last_line p)
unfolding flush_partial
flush_lem [] st (kept d b h le) = rw (d, b) refl
flush_lem (x ∷ p) st (kept d b h le) = rw (d, b) refl
flush_lem [] st (dropped d hb lb h long) = absurd (omega (arith, long))
flush_lem (x ∷ p) st (dropped d hb lb h long) = rw (d, over (length (x ∷ p)) long) refl
  where
    over : (n : ℕ) → max_line_len < n → ltb max_line_len n ≡ true
    over n e = ground arith

module _ (files : Files) (again : Tail → Read) where
  -- A reading that reaches the end of the file.
  read_to_end :
      (id : ℕ) (t : Tail)
      → length (drop t.pos (files.bytes id)) < max_read
      → let rest = drop t.pos (files.bytes id) in
        let cut = split rest t.pending in
        read_open files again id t
        ≡ cons_lines cut.1 (
            follow_entry files again files.entry id
              (record t { pos = t.pos + length rest; pending = cut.0 }))
  unfolding read_open
  read_to_end id t h =
      rw (take_all max_read (drop t.pos (files.bytes id)) (omega (arith, h)), lt→ltb _ _ h) refl

  -- The file at the path, read from its start.
  read_new :
      (id : ℕ) (t : Tail)
      → files.entry ≡ readable id
      → length (files.bytes id) < max_read
      → let cut = split (files.bytes id) t.pending in
        read_open files again id (record t { pos = 0 })
        ≡ lines (record t { pos = length (files.bytes id); pending = cut.0 }) (cut.1 ++ [])
  read_new id t e h =
      let cut = split (files.bytes id) t.pending in
      let size = length (files.bytes id) in
      let whole : 0 + size ≡ size = omega arith in
      read_to_end id (record t { pos = 0 }) h
      ∙ ap
          (λ n.
            cons_lines cut.1
              (follow_entry files again files.entry id (record t { pos = n; pending = cut.0 })))
          whole
      ∙ ap
          (λ x.
            cons_lines cut.1
              (follow_entry files again x id (record t { pos = size; pending = cut.0 })))
          e
      ∙ rw ((eqb_iff id id).1 refl, not_below size) refl
    where
      not_below : (n : ℕ) → ltb n n ≡ false
      not_below n = ground arith

  -- At the end of the old file, with another one at the path.
  rotated :
      (old new : ℕ) (t : Tail)
      → files.entry ≡ readable new
      → eqb new old ≡ false
      → follow_entry files again files.entry old t ≡ after_tail (leave t).1 (again (leave t).0)
  rotated old new t e ne = ap (λ x. follow_entry files again x old t) e ∙ rw ne refl

reopen :
    (files : Files) (new : ℕ) (l : Tail)
    → l.handle ≡ none
    → l.skip_history ≡ false
    → files.entry ≡ readable new
    → read_lines 1 files l
      ≡ read_open files (λ next. read_lines 0 files next) new (record l { handle = some new })
unfolding read_lines open_log
reopen files new l h s e =
    let again = λ (next : Tail). read_lines 0 files next in
    ap (λ x. read_handle files again x l) h
    ∙ ap (λ x. read_opened files again (open_entry files x l)) e
    ∙ ap (λ x. read_opened files again (open_readable files new l x)) s

begun-NoNewline : (p : List ℕ) (st : Pending) → Stands p st → NoNewline p
begun-NoNewline p st (kept d b h le) = h
begun-NoNewline p st (dropped d hb lb h long) = h

kept_parts :
    (a b c : List (List ℕ))
    → keep is_short (a ++ (b ++ (c ++ [])))
      ≡ keep is_short a ++ (keep is_short b ++ keep is_short c)
kept_parts a b c =
    keep-append is_short a (b ++ (c ++ []))
    ∙ ap (◌++◌ (keep is_short a)) (
        keep-append is_short b (c ++ [])
        ∙ ap (λ x. keep is_short b ++ keep is_short x) (append-nil c))

three_equal : {a b c d e f : List (List ℕ)} → a ≡ d → b ≡ e → c ≡ f → a ++ (b ++ c) ≡ d ++ (e ++ f)
three_equal p q r = rw (p, q, r)

-- What a rotation within one poll gives.
pub record Rotated (files : Files) (new : ℕ) (text : List ℕ) (r : Read) : Type 0 where
  pub after : Tail
  pub out : List (List ℕ)
  pub reads : r ≡ lines after out
  pub all_lines :
      keep is_short out
      ≡ keep is_short (split_lines text).0
        ++ (keep is_short (last_line (split_lines text).1)
            ++ keep is_short (split_lines (files.bytes new)).0)
  pub follows : after.handle ≡ some new
  pub at_end_of_it : after.pos ≡ length (files.bytes new)

-- A poll that finds the log rotated takes every line of at most 8192 bytes, in order and each once:
-- those that the old file still had, its last line even without a newline, and those of the new file,
-- which it goes on to follow. `p` is the line that had begun; neither file has more left than is
-- read in one poll.
pub read_new_lines-Rotated :
    (files : Files) (old new : ℕ) (p : List ℕ) (t : Tail)
    → Stands p t.pending
    → t.handle ≡ some old
    → t.skip_history ≡ false
    → files.entry ≡ readable new
    → eqb new old ≡ false
    → length (drop t.pos (files.bytes old)) < max_read
    → length (files.bytes new) < max_read
    → Rotated files new (p ++ drop t.pos (files.bytes old)) (read_new_lines files t)
unfolding read_new_lines read_lines flush_partial
read_new_lines-Rotated files old new p t st h s e ne short_old short_new =
    let again = λ (next : Tail). read_lines 1 files next in
    let again0 = λ (next : Tail). read_lines 0 files next in
    let rest = drop t.pos (files.bytes old) in
    let cut = split rest t.pending in
    let next = record t { pos = t.pos + length rest; pending = cut.0 } in
    let l = leave next in
    let first = split-Stands p rest t.pending st in
    let r = prepend p (split_lines rest) in
    let reopened_tail = record (l.0) { handle = some new } in
    let cut2 = split (files.bytes new) l.0.pending in
    record {
      after = record reopened_tail { pos = length (files.bytes new); pending = cut2.0 };
      out = cut.1 ++ (l.1 ++ (cut2.1 ++ []));
      reads =
          ap (λ x. read_handle files again x t) h
          ∙ read_to_end files again old t short_old
          ∙ ap (cons_lines cut.1) (
              rotated files again old new next e ne
              ∙ ap (after_tail l.1) (
                  reopen files new l.0 refl s e
                  ∙ read_new files again0 new reopened_tail e short_new));
      all_lines =
          kept_parts cut.1 l.1 cut2.1
          ∙ three_equal first.0 (flush_lem r.1 cut.0 first.1)
              (split-Stands [] (files.bytes new) l.0.pending (kept refl refl tt (omega arith))).0
          ∙ ap
              (λ (q : List (List ℕ) × List ℕ).
                keep is_short r.0 ++ (keep is_short (last_line r.1) ++ keep is_short q.0))
              (sym (prepend_nil (split_lines (files.bytes new))))
          ∙ ap
              (λ (q : List (List ℕ) × List ℕ).
                keep is_short q.0
                ++ (keep is_short (last_line q.1)
                    ++ keep is_short (split_lines (files.bytes new)).0))
              (sym (split_lines-append p rest (begun-NoNewline p t.pending st)));
      follows = refl;
      at_end_of_it = refl;
    }

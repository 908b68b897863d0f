-- ===== src/Collectors/Process/Reading.antt =====
-- How process.py reads one process: what a hostile name can do to the numbers of its stat line, and when
-- the details of an instance are fixed.
use sentinel_linux.Prelude.{
  ℕ, ◌+◌, ◌≡◌, refl, sym, ap, ◌∙◌, Bool, true, false, some, ◌&&◌, String, inl, inr, Bool-cases,
}
use Prim.Native.Char.{Char}
use sentinel_linux.Prelude.Eq.{int_key}
use sentinel_linux.Prelude.Int.{ℤ, int_same_iff}
use sentinel_linux.Prelude.Text.{text_append, text_length, text_drop}
use sentinel_linux.Prelude.Words.{text_rfind, text_rfind_last, Lacks}
use sentinel_linux.Collectors.Clip.{drop-append, drop_add}
use sentinel_linux.Collectors.Procfs.{
  ProcState, ProcFiles, parse_stat, stat_after, read_proc, read_known, fresh_state, second_state,
  is_none,
}

drop_mark :
    (front rest : String) (mark : Char)
    → text_drop (text_length front + 1) (text_append front (String.◌∷◌ mark rest)) ≡ rest
drop_mark front rest mark =
    drop_add (text_length front) 1 (text_append front (String.◌∷◌ mark rest))
    ∙ ap (text_drop 1) (drop-append front (String.◌∷◌ mark rest) (text_length front) refl)

-- Whatever stands before the last parenthesis, the process's own name with its spaces and
-- parentheses included, has no influence on the parent and the start time that are read.
pub parse_stat-front :
    (front other rest : String)
    → Lacks b')' rest
    → parse_stat (text_append front (String.◌∷◌ ")" rest))
      ≡ parse_stat (text_append other (String.◌∷◌ ")" rest))
unfolding parse_stat
parse_stat-front front other rest h = lem front ∙ sym (lem other)
  where
    lem :
        (s : String)
        → stat_after
            (text_append s (String.◌∷◌ ")" rest))
            (text_rfind b')' (text_append s (String.◌∷◌ ")" rest)))
          ≡ stat_after (String.◌∷◌ ")" rest) (some 0)
    lem s = rw (text_rfind_last b')' s rest ")" refl h, drop_mark s rest ")") refl

module _ (os_text : String → String) where
  second-settled :
      (pid : ℕ) (s : ProcState) (files : ProcFiles) (content : String) (ppid : ℤ)
      → let t = read_known os_text pid (some s) files content (ppid, s.starttime) in
        (t.settled ≡ true) × (t.starttime ≡ s.starttime)
  second-settled pid s files content ppid = go (s.settled) refl
    where
      both_settled :
          (f : ProcState)
          → f.settled ≡ true
          → f.starttime ≡ s.starttime
          → ((second_state os_text s f).settled ≡ true)
            × ((second_state os_text s f).starttime ≡ s.starttime)
      both_settled f e t = elim (Bool-cases (is_none f.cmdline && is_none f.executable)) [
        | inl empty ↦ rw empty (e, t)
        | inr full ↦ rw full (e, t)
      ]

      go :
          (b : Bool)
          → s.settled ≡ b
          → let t = read_known os_text pid (some s) files content (ppid, s.starttime) in
            (t.settled ≡ true) × (t.starttime ≡ s.starttime)
      go true e = rw ((int_same_iff s.starttime s.starttime).1 refl, e) (refl, refl)
      go false e =
          rw ((int_same_iff s.starttime s.starttime).1 refl, e)
            (both_settled (fresh_state os_text pid ppid s.starttime files content true) refl refl)

  -- The second sighting of an instance fixes its details: whatever the files of a third one say,
  -- only the parent is taken from them.
  pub read_proc-read_proc :
      (pid : ℕ) (s : ProcState) (second third : ProcFiles) (c d : String) (p q : ℤ)
      → second.stat ≡ some c
      → parse_stat c ≡ some (p, s.starttime)
      → third.stat ≡ some d
      → parse_stat d ≡ some (q, s.starttime)
      → (t : ProcState) × (read_proc os_text pid (some s) second ≡ some t)
        × (t.settled ≡ true)
        × (read_proc os_text pid (some t) third ≡ some (record t { ppid = q }))
  unfolding read_proc
  read_proc-read_proc pid s second third c d p q h2 e2 h3 e3 =
      let t = read_known os_text pid (some s) second c (p, s.starttime) in
      let ok = second-settled pid s second c p in
      (t, rw h2 (rw e2 refl), ok.0, rw h3 (rw e3 (known_again t (s.starttime) ok.0 ok.1)))
    where
      known_again :
          (t : ProcState) (start : ℤ)
          → t.settled ≡ true
          → t.starttime ≡ start
          → some (read_known os_text pid (some t) third d (q, start)) ≡ some (record t { ppid = q })
      known_again t start e st = rw ((int_same_iff t.starttime start).1 st, e) refl

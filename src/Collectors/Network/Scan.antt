-- ===== src/Collectors/Network/Scan.antt =====
-- The snapshot of network.py: what is in it, and that connections cannot push a listener out.
use mathlib.Core.Path.{subst}
use sentinel_linux.Prelude.{
  ℕ, suc, ◌+◌, ◌≤◌, ◌≡◌, refl, sym, ◌∙◌, Bool, true, false, List, [], ◌∷◌, ◌++◌, length, leb, ◌&&◌,
  ◌||◌, not, String, inl, inr, Bool-cases, arith, All, any, keep, keep-All, keep-true, All-append,
}
use sentinel_linux.Prelude.Eq.{◌==◌}
use sentinel_linux.Prelude.Int.{ℤ, int_same}
use sentinel_linux.Dict.{Dict, set, has, Distinct}
use sentinel_linux.Dict.Laws.{length-set, Distinct-set, has-set, length-set-le}
use sentinel_linux.Collectors.Snapshot.{Entries}
use sentinel_linux.Collectors.Snapshot.Replay.{Entries-set}
use sentinel_linux.Collectors.Netparse.{Socket, SocketKey, socket_key, key, same_key_iff}
use sentinel_linux.Collectors.Network.{
  Tables, scan, fill, rows, is_kept, is_listener, is_tracked, listeners_first, own_socket_inodes,
  parse_lines, text_or_empty,
}
use sentinel_linux.Prelude.Words.{splitlines}

-- Every entry is filed under its own key, in a tracked state, and not Sentinel's own.
abbrev pub Kept : Bool → List ℤ → SocketKey → Socket → Type 0
Kept track_connections own k s =
    (key s ≡ k) × (is_tracked track_connections s ≡ true) × (any (int_same s.inode) own ≡ false)

pub record IsSnapshot (track_connections : Bool) (max_sockets : ℕ) (own : List ℤ)
    (d : Dict SocketKey Socket) : Type 0 where
  pub kept : Entries (Kept track_connections own) d
  pub distinct : Distinct d
  pub bounded : length d ≤ max_sockets

kept_lem :
    (track_connections : Bool) (own : List ℤ) (s : Socket)
    → is_kept track_connections own s ≡ true
    → Kept track_connections own (key s) s
kept_lem track_connections own s h =
    let p = parts (is_tracked track_connections s) (any (int_same s.inode) own) h in
    (refl, p.0, p.1)
  where
    parts : (a b : Bool) → (a && not b) ≡ true → (a ≡ true) × (b ≡ false)
    parts true true e = cc
    parts true false e = (refl, refl)
    parts false b e = cc

module _ (track_connections : Bool) (max_sockets : ℕ) (own : List ℤ) where
  fill-IsSnapshot :
      (ss : List Socket) (d : Dict SocketKey Socket)
      → All (λ s. is_kept track_connections own s ≡ true) ss
      → IsSnapshot track_connections max_sockets own d
      → IsSnapshot track_connections max_sockets own (fill max_sockets ss d).0
  unfolding fill
  fill-IsSnapshot [] d hs h = h
  fill-IsSnapshot (s ∷ ss) d hs h = elim (Bool-cases (leb max_sockets (length d))) [
    | inl full ↦ rw full h
    | inr room ↦ rw room (
        fill-IsSnapshot ss (set (key s) s d) hs.1 (record {
          kept =
              Entries-set (Kept track_connections own) (key s) s d
                (kept_lem track_connections own s hs.0) h.kept;
          distinct = Distinct-set (key s) s d h.distinct;
          bounded = ground (arith, length-set (key s) s d);
        }))
  ]

fill_keeps :
    (max_sockets : ℕ) (k : SocketKey) (ss : List Socket) (d : Dict SocketKey Socket)
    → has k d ≡ true
    → has k (fill max_sockets ss d).0 ≡ true
unfolding fill
fill_keeps max_sockets k [] d h = h
fill_keeps max_sockets k (s ∷ ss) d h = elim (Bool-cases (leb max_sockets (length d))) [
  | inl full ↦ rw full h
  | inr room ↦ rw room (
      fill_keeps max_sockets k ss (set (key s) s d)
        (has-set (key s) k s d ∙ or_right (key s == k) (has k d) h))
]
  where
    or_right : (a b : Bool) → b ≡ true → (a || b) ≡ true
    or_right true b e = refl
    or_right false b e = e

fill_first :
    (max_sockets : ℕ) (ls cs : List Socket) (d : Dict SocketKey Socket)
    → length d + length ls ≤ max_sockets
    → All (λ s. has (key s) (fill max_sockets (ls ++ cs) d).0 ≡ true) ls
unfolding fill
fill_first max_sockets [] cs d h = tt
fill_first max_sockets (s ∷ ls) cs d h =
    let room : leb max_sockets (length d) ≡ false = below max_sockets (length d) (length ls) h in
    let present : has (key s) (set (key s) s d) ≡ true =
      has-set (key s) (key s) s d ∙ rw ((same_key_iff (key s) (key s)).1 refl) refl in
    let grown = length-set-le (key s) s d in
    let step : fill max_sockets (s ∷ (ls ++ cs)) d ≡ fill max_sockets (ls ++ cs) (set (key s) s d) =
      rw room refl in
    subst (λ (o : Dict SocketKey Socket × Bool). All (λ t. has (key t) o.0 ≡ true) (s ∷ ls))
      (sym step)
      (
        fill_keeps max_sockets (key s) (ls ++ cs) (set (key s) s d) present,
        fill_first max_sockets ls cs (set (key s) s d) (omega (arith, grown, h)),
      )
  where
    below : (m d l : ℕ) → d + suc l ≤ m → leb m d ≡ false
    below m d l e = ground arith

module _ (ipv6_text : List ℕ → String) (track_connections : Bool) (max_sockets : ℕ)
    (tables : Tables) where
  -- Whatever the tables hold, a scan files each socket once under its own key, holds at most
  -- `max_sockets`, only tracked states, and none of Sentinel's own sockets.
  pub scan-IsSnapshot :
      IsSnapshot track_connections max_sockets
        (own_socket_inodes tables.links)
        (scan ipv6_text track_connections max_sockets tables).0
  unfolding scan rows
  scan-IsSnapshot =
      fill-IsSnapshot track_connections max_sockets (own_socket_inodes tables.links)
        (listeners_first (rows ipv6_text track_connections tables)) []
        (All-append _ (keep is_listener kept_rows) (keep (λ s. not (is_listener s)) kept_rows)
          (keep-All _ is_listener kept_rows all_kept)
          (keep-All _ (λ s. not (is_listener s)) kept_rows all_kept))
        (record { kept = tt; distinct = tt; bounded = omega arith })
    where
      kept_rows : List Socket
      kept_rows = rows ipv6_text track_connections tables

      all_kept :
          All (λ s. is_kept track_connections (own_socket_inodes tables.links) s ≡ true) kept_rows
      all_kept = keep-true (is_kept track_connections (own_socket_inodes tables.links)) (
          parse_lines ipv6_text "tcp" (splitlines (text_or_empty tables.tcp))
          ++ parse_lines ipv6_text "tcp6" (splitlines (text_or_empty tables.tcp6)))

  -- As long as the listeners of both tables fit in `max_sockets`, every one of them is in the
  -- snapshot, however many connections there are.
  pub scan-listeners :
      length (keep is_listener (rows ipv6_text track_connections tables)) ≤ max_sockets
      → All
          (λ s. has (key s) (scan ipv6_text track_connections max_sockets tables).0 ≡ true)
          (keep is_listener (rows ipv6_text track_connections tables))
  unfolding scan
  scan-listeners h =
      fill_first max_sockets (keep is_listener (rows ipv6_text track_connections tables))
        (keep (λ s. not (is_listener s)) (rows ipv6_text track_connections tables)) []
        (omega (arith, h))

-- ===== src/Collectors/Network/Diff.antt =====
-- The records of network.py's `_diff`, taken as a log: which sockets are open.
use sentinel_linux.Prelude.{
  ℕ, ◌≡◌, refl, ap, ◌∙◌, Bool, true, Option, none, some, List, [], ◌∷◌, ◌++◌, length, if◌then◌else◌,
  String, inl, inr, Bool-cases, arith,
}
use sentinel_linux.Prelude.Int.{ℤ}
use sentinel_linux.Events.{Event}
use sentinel_linux.Dict.{Dict, Distinct}
use sentinel_linux.Collectors.Emit.{Emits, publish-Emits}
use sentinel_linux.Collectors.Snapshot.{Entries}
use sentinel_linux.Collectors.Snapshot.Replay.{
  ChangeLaws, played, played-append, played-diff, table,
}
use sentinel_linux.Collectors.Netparse.{Socket, SocketKey, socket_key, key, same_key_iff}
use sentinel_linux.Collectors.Network.{
  Tables, SocketChange, appeared, disappeared, socket_changes, socket_gone, diff, scan, observe,
  drain_once, scanned, NetworkCollector, raw_of_change,
}
use sentinel_linux.Collectors.Network.Scan.{scan-IsSnapshot, Kept}

abbrev pub key_of : SocketChange → SocketKey
key_of (appeared s) = key s
key_of (disappeared s) = key s

-- A reader of the records knows which sockets are open.
abbrev pub learn : SocketChange → Option (Unit {0}) → Option (Unit {0})
learn (appeared s) o = some tt
learn (disappeared s) o = none

abbrev pub is_open : Socket → Unit {0}
is_open s = tt

abbrev pub Filed : SocketKey → Socket → Type 0
Filed k s = key s ≡ k

socket_laws : ChangeLaws Filed is_open key_of learn socket_changes socket_gone
unfolding socket_changes
socket_laws = record {
  first = λ k v p. (p, tt);
  again = λ k u v p q. tt;
  opened = λ k v p. rw ((same_key_iff (key v) k).1 p) refl;
  updated = λ k u v p q. refl;
  left = λ k v p. p;
  closed = λ k v p. refl;
}

Kept-Filed :
    (track : Bool) (own : List ℤ) (d : Dict SocketKey Socket)
    → Entries (Kept track own) d
    → Entries Filed d
Kept-Filed track own [] h = tt
Kept-Filed track own ((k, s) ∷ d) h = (h.0.0, Kept-Filed track own d h.1)

pub record IsBaseline (d : Dict SocketKey Socket) : Type 0 where
  pub filed : Entries Filed d
  pub distinct : Distinct d

diff-replays :
    (k : SocketKey) (old new : Dict SocketKey Socket)
    → IsBaseline old
    → IsBaseline new
    → played key_of learn k (diff old new) (table is_open old k) ≡ table is_open new k
unfolding diff
diff-replays k old new ho hn =
    played-diff Filed is_open key_of learn socket_changes socket_gone socket_laws k old new ho.filed
      hn.filed ho.distinct hn.distinct

module _ (ipv6_text : List ℕ → String) (track : Bool) (max_sockets : ℕ) where
  scan-IsBaseline : (tables : Tables) → IsBaseline (scan ipv6_text track max_sockets tables).0
  scan-IsBaseline tables =
      let h = scan-IsSnapshot ipv6_text track max_sockets tables in
      record { filed = Kept-Filed track _ _ h.kept; distinct = h.distinct }

  -- The records of a run of polls and the last snapshot.
  pub watch : List Tables → Dict SocketKey Socket → List SocketChange × Dict SocketKey Socket
  watch [] baseline = ([], baseline)
  watch (tables ∷ polls) baseline =
      let snapshot = (scan ipv6_text track max_sockets tables).0 in
      let rest = watch polls snapshot in (diff baseline snapshot ++ rest.0, rest.1)

  -- Over any run of polls, the open and close records, played in order on the sockets of the first
  -- snapshot, leave exactly the sockets of the last one open.
  pub watch-sockets :
      (polls : List Tables) (baseline : Dict SocketKey Socket) (k : SocketKey)
      → IsBaseline baseline
      → let o = watch polls baseline in
        played key_of learn k o.0 (table is_open baseline k) ≡ table is_open o.1 k
  unfolding watch
  watch-sockets [] baseline k h = refl
  watch-sockets (tables ∷ polls) baseline k h =
      let snapshot = (scan ipv6_text track max_sockets tables).0 in
      let hs = scan-IsBaseline tables in
      played-append key_of learn k (diff baseline snapshot) (watch polls snapshot).0
        (table is_open baseline k)
      ∙ ap (played key_of learn k (watch polls snapshot).0) (diff-replays k baseline snapshot h hs)
      ∙ watch-sockets polls snapshot k hs

pub record Polled (snapshot : Dict SocketKey Socket) (before : NetworkCollector)
    (o : NetworkCollector × List Event) : Type 0 where
  pub based : o.0.baseline ≡ snapshot
  pub now_seeded : o.0.seeded ≡ true
  pub reported :
      Emits before.emitter o.0.emitter
        (if before.seeded then length (diff before.baseline snapshot) else 0)
        o.1

module _ (sha256 : String → String) (local_hostname : String) (valid_event : Event → Bool) where
  observed :
      (clock : ℕ → ℕ) (snapshot : Dict SocketKey Socket) (c : NetworkCollector)
      → Polled snapshot c (observe sha256 local_hostname valid_event clock snapshot c)
  unfolding observe
  observed clock snapshot c = elim (Bool-cases c.seeded) [
    | inl seeded ↦ rw seeded (record {
      based = refl;
      now_seeded = refl;
      reported =
          publish-Emits sha256 local_hostname valid_event (raw_of_change c.host) clock
            (diff c.baseline snapshot) c.emitter;
    })
    | inr first ↦ rw first (record {
      based = refl;
      now_seeded = refl;
      reported = record { each = omega arith; put = omega arith };
    })
  ]

  -- A poll takes its scan as the new baseline. The first one reports nothing; every later one gives,
  -- for each change that the comparison finds, one event on the queue or one dead letter.
  pub drain_once-Polled :
      (ipv6_text : List ℕ → String) (tables : Tables) (clock : ℕ → ℕ) (c : NetworkCollector)
      → Polled
          (scan ipv6_text c.track_connections c.max_sockets tables).0
          c
          (drain_once ipv6_text sha256 local_hostname valid_event tables clock c)
  unfolding drain_once
  drain_once-Polled ipv6_text tables clock c =
      let out = scan ipv6_text c.track_connections c.max_sockets tables in
      let h = observed clock out.0 (scanned tables out.1 c) in
      record { based = h.based; now_seeded = h.now_seeded; reported = h.reported }

-- ===== src/Collectors/Network.antt =====
-- src/sentinel/collectors/network.py. What the kernel answers is a parameter: the targets of the
-- links in /proc/self/fd and the texts of the two tables (`none` is an OSError).
pub mod Scan
pub mod Diff
use sentinel_linux.Prelude.{
  ℕ, ◌-◌, Bool, true, false, ◌&&◌, ◌||◌, not, Option, none, some, List, [], ◌∷◌, ◌++◌, length,
  if◌then◌else◌, String, leb, any, keep,
}
use text.Mathlib.Text.{◌==◌ as str_eq}
use sentinel_linux.Prelude.Int.{ℤ, natural, int_same}
use sentinel_linux.Prelude.Text.{text_starts, text_ends, text_drop, text_take, text_length}
use sentinel_linux.Prelude.Words.{splitlines, text_isdigit, int_of}
use sentinel_linux.Dict.{Dict, set, has}
use sentinel_linux.Events.{Event}
use sentinel_linux.RawEvents.{Common, RawNetworkEvent, RawEvent, network_event, valid_network}
use sentinel_linux.Collectors.Emit.{Emitter, publish}
use sentinel_linux.Collectors.Snapshot.{seen_now, no_longer}
use sentinel_linux.Collectors.Netparse.{
  Socket, SocketKey, socket_key, key, parse_net_line, state_listen, state_established,
}

-- `_SOCKET_LINK.fullmatch`, and the inode that it finds.
unfoldable pub socket_inode : String → Option ℤ
socket_inode target =
    let inner = text_take (text_length target - 9) (text_drop 8 target) in
    if text_starts target "socket:[" && text_ends target "]" && text_isdigit inner
    then int_of inner
    else none

-- `_own_socket_inodes`: the links of the descriptors, if they can be listed.
unfoldable pub link_inodes : List (Option String) → List ℤ
unfolding socket_inode
link_inodes [] = []
link_inodes (none ∷ links) = link_inodes links
link_inodes (some target ∷ links) =
    let rest = link_inodes links in
    elim (socket_inode target) [ none ↦ rest | some inode ↦ inode ∷ rest ]

abbrev pub own_socket_inodes : Option (List (Option String)) → List ℤ
own_socket_inodes none = []
own_socket_inodes (some links) = link_inodes links

-- `_tracked_states`
abbrev pub is_listener : Socket → Bool
is_listener s = str_eq s.state state_listen

abbrev pub is_tracked : Bool → Socket → Bool
is_tracked track_connections s =
    is_listener s || (track_connections && str_eq s.state state_established)

-- What one poll reads.
pub record Tables : Type 0 where
  pub links : Option (List (Option String))
  pub tcp : Option String
  pub tcp6 : Option String

abbrev pub text_or_empty : Option String → String
text_or_empty none = ""
text_or_empty (some text) = text

abbrev cons_socket : Option Socket → List Socket → List Socket
cons_socket none ss = ss
cons_socket (some s) ss = s ∷ ss

-- Those that `_scan` keeps: in a tracked state, and not Sentinel's own.
abbrev pub is_kept : Bool → List ℤ → Socket → Bool
is_kept track_connections own s = is_tracked track_connections s && not (any (int_same s.inode) own)

module _ (ipv6_text : List ℕ → String) where
  -- The sockets of one table.
  unfoldable pub parse_lines : String → List String → List Socket
  unfolding parse_net_line
  parse_lines proto [] = []
  parse_lines proto (line ∷ lines) =
      cons_socket (parse_net_line ipv6_text line proto) (parse_lines proto lines)

  unfoldable pub rows : Bool → Tables → List Socket
  unfolding parse_lines link_inodes
  rows track_connections tables =
      keep (is_kept track_connections (own_socket_inodes tables.links)) (
        parse_lines "tcp" (splitlines (text_or_empty tables.tcp))
        ++ parse_lines "tcp6" (splitlines (text_or_empty tables.tcp6)))

-- The loop that fills the snapshot, and whether it stopped at the limit.
unfoldable pub fill : ℕ → List Socket → Dict SocketKey Socket → Dict SocketKey Socket × Bool
unfolding set
fill max_sockets [] snapshot = (snapshot, false)
fill max_sockets (s ∷ ss) snapshot =
    let rest = fill max_sockets ss (set (key s) s snapshot) in
    if leb max_sockets (length snapshot) then (snapshot, true) else rest

abbrev pub listeners_first : List Socket → List Socket
listeners_first ss = keep is_listener ss ++ keep (λ s. not (is_listener s)) ss

-- `_scan`
unfoldable pub scan : (List ℕ → String) → Bool → ℕ → Tables → Dict SocketKey Socket × Bool
unfolding rows fill
scan ipv6_text track_connections max_sockets tables =
    fill max_sockets (listeners_first (rows ipv6_text track_connections tables)) []

-- What `_diff` finds: one record to build for each.
pub data SocketChange : Type 0 where
  appeared disappeared : Socket → SocketChange

unfoldable pub socket_changes : SocketKey → Option Socket → Socket → List SocketChange
socket_changes k none s = appeared s ∷ []
socket_changes k (some previous) s = []

abbrev pub socket_gone : SocketKey → Socket → SocketChange
socket_gone k s = disappeared s

-- `_diff`
unfoldable pub diff : Dict SocketKey Socket → Dict SocketKey Socket → List SocketChange
unfolding seen_now no_longer socket_changes
diff old new = seen_now socket_changes old new ++ no_longer socket_gone new old

-- `_raw`
abbrev accept : RawNetworkEvent → Option RawEvent
accept raw = if valid_network raw then some (network_event raw) else none

abbrev with_numbers : Socket → Common → Option ℕ → Option ℕ → Option RawEvent
with_numbers s common (some uid) (some inode) = accept (record {
  common = common;
  proto = s.proto;
  local_ip = s.local_ip;
  local_port = s.local_port;
  remote_ip = s.remote_ip;
  remote_port = s.remote_port;
  state = s.state;
  uid = uid;
  inode = inode;
})
with_numbers s common (some uid) none = none
with_numbers s common none inode = none

unfoldable pub raw : String → ℕ → String → ℕ → Socket → Option RawEvent
unfolding valid_network
raw host now action severity s =
    with_numbers s (record { occurred_at = now; host = host; action = action; severity = severity })
      (natural s.uid) (natural s.inode)

-- `_appeared` and `_disappeared`
unfoldable pub raw_of_change : String → ℕ → SocketChange → Option RawEvent
unfolding raw
raw_of_change host now (appeared s) =
    if is_listener s
    then raw host now "network_listen_started" 4 s
    else raw host now "network_connection_opened" 2 s
raw_of_change host now (disappeared s) =
    if is_listener s
    then raw host now "network_listen_stopped" 3 s
    else raw host now "network_connection_closed" 1 s

pub record NetworkCollector : Type 0 where
  pub host : String
  pub max_sockets : ℕ
  pub track_connections : Bool
  pub capped : Bool
  pub baseline : Dict SocketKey Socket
  pub seeded : Bool
  pub source_available : Bool
  pub emitter : Emitter

abbrev is_readable : Option String → Bool
is_readable none = false
is_readable (some text) = true

-- The state that `_scan` leaves beside its snapshot.
abbrev pub scanned : Tables → Bool → NetworkCollector → NetworkCollector
scanned tables capped c = record c {
  capped = capped;
  source_available = is_readable tables.tcp || is_readable tables.tcp6;
}

module _ (sha256 : String → String) (local_hostname : String) (valid_event : Event → Bool) where
  unfoldable pub observe :
      (ℕ → ℕ) → Dict SocketKey Socket → NetworkCollector → NetworkCollector × List Event
  unfolding diff publish raw_of_change
  observe clock snapshot c =
      let out =
        publish sha256 local_hostname valid_event (raw_of_change c.host) clock
          (diff c.baseline snapshot) c.emitter in
      if c.seeded
      then (record c { baseline = snapshot; emitter = out.0 }, out.1)
      else (record c { baseline = snapshot; seeded = true }, [])

module _ (ipv6_text : List ℕ → String) (sha256 : String → String) (local_hostname : String)
    (valid_event : Event → Bool) where
  -- `_drain_once`: the collector after a poll, and the events that it puts on the queue.
  unfoldable pub drain_once : Tables → (ℕ → ℕ) → NetworkCollector → NetworkCollector × List Event
  unfolding scan observe
  drain_once tables clock c =
      let out = scan ipv6_text c.track_connections c.max_sockets tables in
      observe sha256 local_hostname valid_event clock out.0 (scanned tables out.1 c)

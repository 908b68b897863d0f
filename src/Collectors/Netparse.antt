-- ===== src/Collectors/Netparse.antt =====
-- src/sentinel/collectors/netparse.py: rows of /proc/net/tcp and tcp6. How the standard library
-- spells an IPv6 address differs between the Python versions that the program accepts, so it is a
-- parameter, `ipv6_text`, over the sixteen bytes.
pub mod Digits
pub mod Endpoint
use Prim.Native.Char.{code}
use text.Mathlib.Text.{◌==◌ as str_eq}
use text.Mathlib.TextEquality.{eq_iff}
use sentinel_linux.Prelude.{
  ℕ, ◌+◌, ◌-◌, ◌*◌, ◌≡◌, ◌↔◌, Bool, true, false, ◌&&◌, ◌||◌, not, Option, none, some, List, [], ◌∷◌,
  ◌++◌, length, get_elem?, take, drop, if◌then◌else◌, String, eqb, eqb_iff, leb, ltb, map, arith,
}
use mathlib.Core.List.{reverse}
use sentinel_linux.Prelude.Eq.{KeyEq}
use sentinel_linux.Prelude.Int.{ℤ, pos, negsuc, int_same, int_same_iff}
use sentinel_linux.Prelude.Text.{text_length, text_join, text_split, text_ends, decimal}
use sentinel_linux.Prelude.Words.{words, int_of, hex_int_of, hex_digit}

abbrev pub state_established : String
state_established = "ESTABLISHED"

abbrev pub state_listen : String
state_listen = "LISTEN"

-- `field.upper() == name`, for a name in which no letter but A and B occurs.
abbrev upper_code : ℕ → ℕ
upper_code n = if leb b'a' n && leb n b'z' then n - 32 else n

abbrev same_upper : String → String → Bool
same_upper String.[] String.[] = true
same_upper String.[] (String.◌∷◌ d name) = false
same_upper (String.◌∷◌ c s) String.[] = false
same_upper (String.◌∷◌ c s) (String.◌∷◌ d name) =
    eqb (upper_code (code c)) (code d) && same_upper s name

-- `_TCP_STATES.get(field.upper())`
abbrev pub state_named : String → List (String × String) → Option String
state_named field [] = none
state_named field ((c, name) ∷ rest) =
    let other = state_named field rest in if same_upper field c then some name else other

abbrev pub tcp_states : List (String × String)
tcp_states =
    ("01", state_established)
    ∷ ("02", "SYN_SENT")
    ∷ ("03", "SYN_RECV")
    ∷ ("04", "FIN_WAIT1")
    ∷ ("05", "FIN_WAIT2")
    ∷ ("06", "TIME_WAIT")
    ∷ ("07", "CLOSE")
    ∷ ("08", "CLOSE_WAIT")
    ∷ ("09", "LAST_ACK")
    ∷ ("0A", state_listen)
    ∷ ("0B", "CLOSING")
    ∷ []

-- `SocketKey`
pub record SocketKey : Type 0 where
  pub proto : String
  pub local_ip : String
  pub local_port : ℕ
  pub remote_ip : String
  pub remote_port : ℕ
  pub inode : ℤ

abbrev pub same_key : SocketKey → SocketKey → Bool
same_key a b =
    str_eq a.proto b.proto
    && str_eq a.local_ip b.local_ip
    && eqb a.local_port b.local_port
    && str_eq a.remote_ip b.remote_ip
    && eqb a.remote_port b.remote_port
    && int_same a.inode b.inode

pub same_key_iff : (a b : SocketKey) → (same_key a b ≡ true) ↔ (a ≡ b)
same_key_iff a b = ground (
  arith,
  eq_iff a.proto b.proto,
  eq_iff a.local_ip b.local_ip,
  eq_iff a.remote_ip b.remote_ip,
  int_same_iff a.inode b.inode,
)

instance abbrev pub socket_key : KeyEq SocketKey
socket_key = record { same = same_key; same_iff = same_key_iff }

-- `Socket`
pub record Socket : Type 0 where
  pub proto : String
  pub local_ip : String
  pub local_port : ℕ
  pub remote_ip : String
  pub remote_port : ℕ
  pub state : String
  pub uid : ℤ
  pub inode : ℤ

-- `Socket.key`
abbrev pub key : Socket → SocketKey
key s = record {
  proto = s.proto;
  local_ip = s.local_ip;
  local_port = s.local_port;
  remote_ip = s.remote_ip;
  remote_port = s.remote_port;
  inode = s.inode;
}

-- `bytes.fromhex`; `none` is its ValueError. White space between two bytes is skipped.
abbrev is_blank : ℕ → Bool
is_blank n = eqb n 32 || (leb 9 n && leb n 13)

abbrev cons_byte : Option ℕ → Option ℕ → Option (List ℕ) → Option (List ℕ)
cons_byte (some high) (some low) (some bytes) = some ((high * 16 + low) ∷ bytes)
cons_byte (some high) (some low) none = none
cons_byte (some high) none rest = none
cons_byte none low rest = none

abbrev pub from_hex : String → Option (List ℕ)
from_hex String.[] = some []
from_hex (String.◌∷◌ c String.[]) = if is_blank (code c) then some [] else none
from_hex (String.◌∷◌ c (String.◌∷◌ d s)) =
    let skipped = from_hex (String.◌∷◌ d s) in
    let rest = from_hex s in
    if is_blank (code c) then skipped else cons_byte (hex_digit (code c)) (hex_digit (code d)) rest

-- `str(ipaddress.IPv4Address(b))`
abbrev pub ipv4_text : List ℕ → String
ipv4_text bytes = text_join "." (map decimal bytes)

-- `_parse_ipv4_hex`
unfoldable pub parse_ipv4_hex : String → Option String
parse_ipv4_hex value =
    if eqb (text_length value) 8
    then elim (from_hex value) [ none ↦ none | some raw ↦ some (ipv4_text (reverse raw)) ]
    else none

-- The four words of an address, each turned round.
abbrev pub packed : List ℕ → List ℕ
packed raw =
    reverse (take 4 raw)
    ++ (reverse (take 4 (drop 4 raw))
        ++ (reverse (take 4 (drop 8 raw)) ++ reverse (take 4 (drop 12 raw))))

module _ (ipv6_text : List ℕ → String) where
  -- `_parse_ipv6_hex`
  unfoldable pub parse_ipv6_hex : String → Option String
  parse_ipv6_hex value =
      if eqb (text_length value) 32
      then elim (from_hex value) [ none ↦ none | some raw ↦ some (ipv6_text (packed raw)) ]
      else none

  -- `_parse_endpoint`
  abbrev pub with_port : String → Option ℤ → Option (String × ℕ)
  with_port ip none = none
  with_port ip (some (negsuc n)) = none
  with_port ip (some (pos port)) = if leb port 65535 then some (ip, port) else none

  abbrev pub of_address : Option String → Option ℤ → Option (String × ℕ)
  of_address none port = none
  of_address (some ip) port = with_port ip port

  abbrev pub of_parts : Bool → List String → Option (String × ℕ)
  of_parts ipv6 (addr_hex ∷ port_hex ∷ []) =
      of_address (if ipv6 then parse_ipv6_hex addr_hex else parse_ipv4_hex addr_hex)
        (hex_int_of port_hex)
  of_parts ipv6 parts = none

  unfoldable pub parse_endpoint : String → Bool → Option (String × ℕ)
  unfolding parse_ipv6_hex parse_ipv4_hex
  parse_endpoint field ipv6 = of_parts ipv6 (text_split b':' field)

  -- `parse_net_line`
  abbrev field_at : ℕ → List String → String
  field_at i fields = elim (get_elem? fields i) [ none ↦ "" | some f ↦ f ]

  abbrev socket_of :
      String
      → Option (String × ℕ)
      → Option (String × ℕ)
      → Option String
      → Option ℤ
      → Option ℤ
      → Option Socket
  socket_of proto (some (local_ip, local_port)) (some (remote_ip, remote_port)) (some state)
        (some uid) (some inode) =
      some (record {
        proto = proto;
        local_ip = local_ip;
        local_port = local_port;
        remote_ip = remote_ip;
        remote_port = remote_port;
        state = state;
        uid = uid;
        inode = inode;
      })
  socket_of proto local remote state uid inode = none

  abbrev socket_from : String → List String → Option Socket
  socket_from proto fields =
      let ipv6 = text_ends proto "6" in
      if ltb (length fields) 10
      then none
      else socket_of proto (parse_endpoint (field_at 1 fields) ipv6)
          (parse_endpoint (field_at 2 fields) ipv6) (state_named (field_at 3 fields) tcp_states)
          (int_of (field_at 7 fields)) (int_of (field_at 9 fields))

  unfoldable pub parse_net_line : String → String → Option Socket
  unfolding parse_endpoint int_of
  parse_net_line line proto = socket_from proto (words line)

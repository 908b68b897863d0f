-- ===== src/Pipeline/Dedup.antt =====
-- src/sentinel/pipeline/dedup.py: the TTL- and size-bounded window of seen keys.
-- The clock is an argument: `now` is what `self._now()` returns in the call, in ticks.
pub mod Invariant
pub mod Seen
pub mod Windows
use sentinel_linux.Prelude.{
  ℕ, ◌+◌, ◌≡◌, Bool, true, false, Option, none, some, List, [], ◌∷◌, length, ltb, leb, eqb,
  if◌then◌else◌, String,
}
use sentinel_linux.Prelude.Eq.{text_key}
use sentinel_linux.Dict
use sentinel_linux.Dict.{Dict, remove_oldest}

-- `DedupWindow`: each key with its expiry, and the counters.
pub record DedupWindow : Type 0 where
  pub ttl : ℕ
  pub max_entries : ℕ
  pub entries : Dict String ℕ
  pub hits : ℕ
  pub misses : ℕ
  pub evictions_ttl : ℕ
  pub evictions_cap : ℕ

-- The constructor; `none` is the ValueError of either check.
unfoldable pub init : ℕ → ℕ → Option DedupWindow
init ttl_seconds max_entries =
    if eqb ttl_seconds 0
    then none
    else if ltb max_entries 1
    then none
    else some (record {
      ttl = ttl_seconds;
      max_entries = max_entries;
      entries = [];
      hits = 0;
      misses = 0;
      evictions_ttl = 0;
      evictions_cap = 0;
    })

-- The walk of `_evict_expired`: the keys before the first live entry, in `to_drop`.
unfoldable pub stale_prefix : ℕ → Dict String ℕ → List String
stale_prefix now [] = []
stale_prefix now ((key, expiry) ∷ d) =
    let rest = stale_prefix now d in if ltb now expiry then [] else key ∷ rest

-- `for key in to_drop: del self._entries[key]`
unfoldable pub delete_all : List String → Dict String ℕ → Dict String ℕ
delete_all [] d = d
delete_all (key ∷ to_drop) d = delete_all to_drop (Dict.remove key d)

unfoldable pub evict_expired : ℕ → DedupWindow → DedupWindow
unfolding stale_prefix delete_all
evict_expired now w =
    let to_drop = stale_prefix now w.entries in
    record w {
      entries = delete_all to_drop w.entries;
      evictions_ttl = w.evictions_ttl + length to_drop;
    }

unfoldable pub evict_to_cap : DedupWindow → DedupWindow
evict_to_cap w = record w { entries = remove_oldest w.entries; evictions_cap = w.evictions_cap + 1 }

-- The hard cap, checked before an insertion.
unfoldable pub make_room : DedupWindow → DedupWindow
unfolding evict_to_cap
make_room w = if leb w.max_entries (length w.entries) then evict_to_cap w else w

-- The branch of `seen` for a key that is not in the window.
unfoldable pub admit : ℕ → String → DedupWindow → DedupWindow
unfolding make_room
admit now key w =
    let roomy = make_room w in
    record roomy {
      entries = Dict.set key (now + roomy.ttl) roomy.entries;
      misses = roomy.misses + 1;
    }

-- `seen`: the new window, and whether the key is a duplicate.
unfoldable pub seen : ℕ → String → DedupWindow → DedupWindow × Bool
unfolding evict_expired admit
seen now key w =
    let live = evict_expired now w in
    if Dict.has key live.entries
    then (record live { hits = live.hits + 1 }, true)
    else (admit now key live, false)

-- `__contains__` of a text: it evicts what has expired, and counts no hit.
unfoldable pub contains : ℕ → String → DedupWindow → DedupWindow × Bool
unfolding evict_expired
contains now key w = let live = evict_expired now w in (live, Dict.has key live.entries)

-- ===== src/Pipeline/Dedup/Seen.antt =====
-- What one call of `seen` does: it keeps the invariant, and answers by the live entries.
use sentinel_linux.Prelude.{
  ℕ, suc, ◌+◌, ◌≤◌, ◌<◌, ◌≡◌, refl, sym, ◌↔◌, ltb→lt, Bool, true, false, some, none, [], ◌∷◌,
  length, arith, if◌then◌else◌, String, Bool-cases, inl, inr, ltb, Option,
}
use sentinel_linux.Prelude.Eq.{text_key}
use sentinel_linux.Dict
use sentinel_linux.Dict.{Dict, remove_oldest, IsFresh, Distinct}
use sentinel_linux.Dict.Laws.{Distinct-set, length-set_absent, get-eq-none}
use sentinel_linux.Pipeline.Dedup.{
  DedupWindow, evict_expired, evict_to_cap, make_room, admit, seen, contains,
}
use sentinel_linux.Pipeline.Dedup.Invariant.{
  IsValid, live_suffix, delete_all-stale_prefix, length-stale_prefix, Ascending, Ascending-weaken,
  evict_expired-IsValid, make_room-IsValid, make_room_fits, make_room_keeps_absent, has-eq-false,
  Ascending-append, Below-set,
}
use text.Mathlib.TextEquality.{eq_iff}

make_room-max_entries : (w : DedupWindow) → (make_room w).max_entries ≡ w.max_entries
unfolding make_room evict_to_cap
make_room-max_entries w = ground arith

admit-IsValid :
    (now : ℕ) (key : String) (w : DedupWindow)
    → Dict.get key w.entries ≡ none
    → IsValid now w
    → IsValid now (admit now key w)
unfolding admit
admit-IsValid now key w absent v =
    let r = make_room w in
    let rv : IsValid now r = make_room-IsValid now w v in
    let gone : Dict.get key r.entries ≡ none = make_room_keeps_absent key w absent in
    let size : length (Dict.set key (now + r.ttl) r.entries) ≡ suc (length r.entries) =
      length-set_absent key (now + r.ttl) r.entries gone in
    record {
      ttl_pos = rv.ttl_pos;
      cap_pos = rv.cap_pos;
      capped = omega (arith, make_room_fits now w v, size, make_room-max_entries w);
      distinct = Distinct-set key (now + r.ttl) r.entries rv.distinct;
      ordered =
          Ascending-append 0 (now + r.ttl) key r.entries (omega arith) gone rv.ordered rv.bounded;
      bounded = Below-set (now + r.ttl) key r.entries rv.bounded;
      accounted = omega (arith, rv.accounted, size);
    }

-- Every call of `seen` keeps the invariant, at a clock that does not run backwards.
pub seen-IsValid :
    (before now : ℕ) (key : String) {w : DedupWindow}
    → before ≤ now
    → IsValid before w
    → IsValid now (seen now key w).0
unfolding seen
seen-IsValid before now key {w} le v =
    let live = evict_expired now w in
    let lv : IsValid now live = evict_expired-IsValid before now le v in
    elim (Bool-cases (Dict.has key live.entries)) [
      | inl dup ↦ rw dup (record {
        ttl_pos = lv.ttl_pos;
        cap_pos = lv.cap_pos;
        capped = lv.capped;
        distinct = lv.distinct;
        ordered = lv.ordered;
        bounded = lv.bounded;
        accounted = lv.accounted;
      })
      | inr fresh ↦ rw fresh (admit-IsValid now key live (has-eq-false key live.entries fresh) lv)
    ]

-- The entry of a key that is not stale.
abbrev pub unexpired : ℕ → Option ℕ → Option ℕ
unexpired now none = none
unexpired now (some t) = if ltb now t then some t else none

abbrev is_some : Option ℕ → Bool
is_some none = false
is_some (some t) = true

get-all_live :
    (now : ℕ) (key : String) (d : Dict String ℕ)
    → Ascending (suc now) d
    → unexpired now (Dict.get key d) ≡ Dict.get key d
unfolding Dict.get
get-all_live now key [] a = refl
get-all_live now key ((j, t) ∷ d) a =
    ground (arith, get-all_live now key d (Ascending-weaken t (suc now) d a.0 a.1))

-- In a list with expiries in order the eviction leaves exactly the entries that have not expired.
pub get-live_suffix :
    (now lo : ℕ) (key : String) (d : Dict String ℕ)
    → Ascending lo d
    → Distinct d
    → Dict.get key (live_suffix now d) ≡ unexpired now (Dict.get key d)
unfolding Dict.get
get-live_suffix now lo key [] a u = refl
get-live_suffix now lo key ((j, t) ∷ d) a u = elim (Bool-cases (ltb now t)) [
  | inl live ↦ rw live (sym (get-all_live now key ((j, t) ∷ d) (ltb→lt now t live, a.1)))
  | inr stale ↦
      rw stale
        (ground (arith, get-live_suffix now t key d a.1 u.1, get-eq-none j d u.0, eq_iff j key))
]

seen-answer :
    (before now : ℕ) (key : String) {w : DedupWindow}
    → IsValid before w
    → (seen now key w).1 ≡ is_some (unexpired now (Dict.get key w.entries))
unfolding seen Dict.has
seen-answer before now key {w} v = ground (
  arith,
  delete_all-stale_prefix now w.entries,
  get-live_suffix now 0 key w.entries v.ordered v.distinct,
)

-- `seen` says "duplicate" exactly when the key has an entry that has not expired.
pub seen_duplicate_iff :
    (before now : ℕ) (key : String) {w : DedupWindow}
    → IsValid before w
    → ((seen now key w).1 ≡ true) ↔ ((t : ℕ) × (Dict.get key w.entries ≡ some t) × (now < t))
seen_duplicate_iff before now key {w} v =
    rw (seen-answer before now key v) (iff (Dict.get key w.entries))
  where
    iff : (o : Option ℕ) → (is_some (unexpired now o) ≡ true) ↔ ((t : ℕ) × (o ≡ some t) × (now < t))
    iff none = (λ h. cc, λ h. cc (h.1))
    iff (some t) = (λ h. (t, refl, ground arith), λ h. ground arith)

-- Every call is counted once, as a hit or as a miss, by its answer.
pub seen_counts :
    (now : ℕ) (key : String) (w : DedupWindow)
    → ((seen now key w).1 ≡ true
        → ((seen now key w).0.hits ≡ w.hits + 1) × ((seen now key w).0.misses ≡ w.misses))
      × ((seen now key w).1 ≡ false
          → ((seen now key w).0.hits ≡ w.hits) × ((seen now key w).0.misses ≡ w.misses + 1))
unfolding seen
seen_counts now key w = (λ h. ground arith, λ h. ground arith)

-- `key in window` answers as `seen` would at the same clock value, and counts no hit and no miss.
-- It is not without effect: the entries up to the first live one are gone from the window, and
-- counted as expired.
pub contains_lem :
    (before now : ℕ) (key : String) {w : DedupWindow}
    → IsValid before w
    → ((contains now key w).1 ≡ (seen now key w).1)
      × ((contains now key w).0.entries ≡ live_suffix now w.entries)
      × ((contains now key w).0.evictions_ttl + length (live_suffix now w.entries)
          ≡ w.evictions_ttl + length w.entries)
      × ((contains now key w).0.hits ≡ w.hits)
      × ((contains now key w).0.misses ≡ w.misses)
unfolding seen contains Dict.has
contains_lem before now key {w} v = (
  ground arith,
  delete_all-stale_prefix now w.entries,
  omega (arith, length-stale_prefix now w.entries),
  refl,
  refl,
)

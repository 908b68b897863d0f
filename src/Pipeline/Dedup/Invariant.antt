-- ===== src/Pipeline/Dedup/Invariant.antt =====
-- The invariant of the dedup window, and that every operation keeps it.
use sentinel_linux.Prelude.{
  ℕ, ◌+◌, ◌-◌, ◌≤◌, ◌<◌, ◌≡◌, refl, false, some, none, [], ◌∷◌, length, arith, if◌then◌else◌,
  String, leb, leb→le, Bool-cases, inl, inr, ltb,
}
use sentinel_linux.Prelude.Eq.{text_key, ◌==◌}
use sentinel_linux.Dict
use sentinel_linux.Dict.{Dict, remove_oldest, IsFresh, Distinct}
use sentinel_linux.Dict.Laws.{Distinct-remove_oldest, length-remove_oldest}
use sentinel_linux.Pipeline.Dedup.{
  DedupWindow, init, stale_prefix, delete_all, evict_expired, evict_to_cap, make_room,
}
use text.Mathlib.TextEquality.{eq_iff}

-- The expiries stand in order, from `lo` on.
abbrev pub Ascending : ℕ → Dict String ℕ → Type 0
Ascending lo [] = Unit
Ascending lo ((k, t) ∷ d) = (lo ≤ t) × Ascending t d

-- Every expiry is at most `hi`.
abbrev pub Below : ℕ → Dict String ℕ → Type 0
Below hi [] = Unit
Below hi ((k, t) ∷ d) = (t ≤ hi) × Below hi d

-- At the clock value `now`: the cap, distinct keys, expiries in order, none beyond now + ttl, and
-- counters that account for every entry.
pub record IsValid (now : ℕ) (w : DedupWindow) : Type 0 where
  pub ttl_pos : 1 ≤ w.ttl
  pub cap_pos : 1 ≤ w.max_entries
  pub capped : length w.entries ≤ w.max_entries
  pub distinct : Distinct w.entries
  pub ordered : Ascending 0 w.entries
  pub bounded : Below (now + w.ttl) w.entries
  pub accounted : length w.entries + w.evictions_ttl + w.evictions_cap ≡ w.misses

-- `dropWhile`: what the eviction leaves.
abbrev pub live_suffix : ℕ → Dict String ℕ → Dict String ℕ
live_suffix now [] = []
live_suffix now ((k, t) ∷ d) =
    let rest = live_suffix now d in if ltb now t then (k, t) ∷ d else rest

-- Deleting the collected keys one by one leaves the suffix from the first live entry on.
pub delete_all-stale_prefix :
    (now : ℕ) (d : Dict String ℕ) → delete_all (stale_prefix now d) d ≡ live_suffix now d
unfolding delete_all stale_prefix Dict.remove
delete_all-stale_prefix now [] = refl
delete_all-stale_prefix now ((k, t) ∷ d) = ground (arith, eq_iff k k, delete_all-stale_prefix now d)

pub length-stale_prefix :
    (now : ℕ) (d : Dict String ℕ)
    → length (stale_prefix now d) + length (live_suffix now d) ≡ length d
unfolding stale_prefix
length-stale_prefix now [] = omega arith
length-stale_prefix now ((k, t) ∷ d) = ground (arith, length-stale_prefix now d)

-- `_evict_expired` in one equation.
pub evict_expired_lem :
    (now : ℕ) (w : DedupWindow)
    → evict_expired now w ≡ record w {
      entries = live_suffix now w.entries;
      evictions_ttl = w.evictions_ttl + (length w.entries - length (live_suffix now w.entries));
    }
unfolding evict_expired
evict_expired_lem now w =
    ground (arith, delete_all-stale_prefix now w.entries, length-stale_prefix now w.entries)

pub Ascending-weaken :
    (lo lo' : ℕ) (d : Dict String ℕ) → lo' ≤ lo → Ascending lo d → Ascending lo' d
Ascending-weaken lo lo' [] le h = tt
Ascending-weaken lo lo' ((k, t) ∷ d) le h = (omega arith, h.1)

module _ (now : ℕ) where
  Distinct-live_suffix : (d : Dict String ℕ) → Distinct d → Distinct (live_suffix now d)
  Distinct-live_suffix [] h = h
  Distinct-live_suffix ((k, t) ∷ d) h = elim (Bool-cases (ltb now t)) [
    | inl live ↦ rw live h
    | inr stale ↦ rw stale (Distinct-live_suffix d h.1)
  ]

  Ascending-live_suffix :
      (lo : ℕ) (d : Dict String ℕ) → Ascending lo d → Ascending lo (live_suffix now d)
  Ascending-live_suffix lo [] h = h
  Ascending-live_suffix lo ((k, t) ∷ d) h = elim (Bool-cases (ltb now t)) [
    | inl live ↦ rw live h
    | inr stale ↦ rw stale (Ascending-live_suffix lo d (Ascending-weaken t lo d h.0 h.1))
  ]

  Below-live_suffix : (hi : ℕ) (d : Dict String ℕ) → Below hi d → Below hi (live_suffix now d)
  Below-live_suffix hi [] h = h
  Below-live_suffix hi ((k, t) ∷ d) h = elim (Bool-cases (ltb now t)) [
    | inl live ↦ rw live h
    | inr stale ↦ rw stale (Below-live_suffix hi d h.1)
  ]

pub Below-weaken : (hi hi' : ℕ) (d : Dict String ℕ) → hi ≤ hi' → Below hi d → Below hi' d
Below-weaken hi hi' [] le h = tt
Below-weaken hi hi' ((k, t) ∷ d) le h = (omega arith, Below-weaken hi hi' d le h.1)

-- Appending the newest expiry keeps the order.
pub Ascending-append :
    (lo hi : ℕ) (k : String) (d : Dict String ℕ)
    → lo ≤ hi
    → Dict.get k d ≡ none
    → Ascending lo d
    → Below hi d
    → Ascending lo (Dict.set k hi d)
unfolding Dict.set Dict.get
Ascending-append lo hi k [] le h a b = (le, tt)
Ascending-append lo hi k ((j, t) ∷ d) le h a b = elim (Bool-cases (j == k)) [
  | inl same ↦ absurd (ground arith)
  | inr other ↦ rw other (a.0, Ascending-append t hi k d b.0 (ground arith) a.1 b.1)
]

pub Below-set : (hi : ℕ) (k : String) (d : Dict String ℕ) → Below hi d → Below hi (Dict.set k hi d)
unfolding Dict.set
Below-set hi k [] h = (omega arith, tt)
Below-set hi k ((j, t) ∷ d) h = elim (Bool-cases (j == k)) [
  | inl same ↦ rw same (omega arith, h.1)
  | inr other ↦ rw other (h.0, Below-set hi k d h.1)
]

pub init-IsValid : (now ttl cap : ℕ) {w : DedupWindow} → init ttl cap ≡ some w → IsValid now w
unfolding init
init-IsValid now ttl cap h = ground arith

pub evict_expired-IsValid :
    (before now : ℕ) {w : DedupWindow}
    → before ≤ now
    → IsValid before w
    → IsValid now (evict_expired now w)
evict_expired-IsValid before now {w} le v = rw evict_expired_lem (record {
  ttl_pos = v.ttl_pos;
  cap_pos = v.cap_pos;
  capped = omega (arith, v.capped, length-stale_prefix now w.entries);
  distinct = Distinct-live_suffix now w.entries v.distinct;
  ordered = Ascending-live_suffix now 0 w.entries v.ordered;
  bounded =
      Below-live_suffix now (now + w.ttl) w.entries
        (Below-weaken (before + w.ttl) (now + w.ttl) w.entries (omega arith) v.bounded);
  accounted = omega (arith, v.accounted, length-stale_prefix now w.entries);
})

remove_oldest-Ascending : (d : Dict String ℕ) → Ascending 0 d → Ascending 0 (remove_oldest d)
unfolding remove_oldest
remove_oldest-Ascending [] h = h
remove_oldest-Ascending ((k, t) ∷ d) h = Ascending-weaken t 0 d (omega arith) h.1

remove_oldest-Below : (hi : ℕ) (d : Dict String ℕ) → Below hi d → Below hi (remove_oldest d)
unfolding remove_oldest
remove_oldest-Below hi [] h = h
remove_oldest-Below hi ((k, t) ∷ d) h = h.1

pub make_room-IsValid : (now : ℕ) (w : DedupWindow) → IsValid now w → IsValid now (make_room w)
unfolding make_room evict_to_cap
make_room-IsValid now w v = elim (Bool-cases (leb w.max_entries (length w.entries))) [
  | inr roomy ↦ rw roomy v
  | inl full ↦ rw full (record {
    ttl_pos = v.ttl_pos;
    cap_pos = v.cap_pos;
    capped = omega (arith, v.capped, length-remove_oldest w.entries);
    distinct = Distinct-remove_oldest w.entries v.distinct;
    ordered = remove_oldest-Ascending w.entries v.ordered;
    bounded = remove_oldest-Below (now + w.ttl) w.entries v.bounded;
    accounted = omega (
      arith,
      v.accounted,
      v.cap_pos,
      leb→le w.max_entries (length w.entries) full,
      length-remove_oldest w.entries,
    );
  })
]

-- After `make_room` there is a free slot.
pub make_room_fits :
    (now : ℕ) (w : DedupWindow) → IsValid now w → length (make_room w).entries < w.max_entries
unfolding make_room evict_to_cap
make_room_fits now w v = ground (arith, v.capped, v.cap_pos, length-remove_oldest w.entries)

pub absent-remove_oldest :
    (key : String) (d : Dict String ℕ)
    → Dict.get key d ≡ none
    → Dict.get key (remove_oldest d) ≡ none
unfolding Dict.get remove_oldest
absent-remove_oldest key [] h = h
absent-remove_oldest key ((j, t) ∷ d) h = ground arith

pub make_room_keeps_absent :
    (key : String) (w : DedupWindow)
    → Dict.get key w.entries ≡ none
    → Dict.get key (make_room w).entries ≡ none
unfolding make_room evict_to_cap
make_room_keeps_absent key w h = elim (Bool-cases (leb w.max_entries (length w.entries))) [
  | inr roomy ↦ rw roomy h
  | inl full ↦ rw full (absent-remove_oldest key w.entries h)
]

pub has-eq-false :
    (key : String) (d : Dict String ℕ) → Dict.has key d ≡ false → Dict.get key d ≡ none
unfolding Dict.has
has-eq-false key d h = ground arith

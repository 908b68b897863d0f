-- ===== src/Pipeline/Dedup/Windows.antt =====
-- The claim of the module's docstring over a run of calls: within the TTL, and while fewer than
-- `max_entries` other keys are admitted, a key is admitted once.
use sentinel_linux.Prelude.{
  ℕ, ◌+◌, ◌≤◌, ◌<◌, ◌≡◌, true, false, some, none, List, [], ◌∷◌, length, arith, if◌then◌else◌,
  String, Bool-cases, inl, inr, leb, leb→le,
}
use sentinel_linux.Prelude.Eq.{text_key, ◌==◌}
use sentinel_linux.Dict
use sentinel_linux.Dict.{Dict, remove_oldest, Distinct}
use sentinel_linux.Dict.Laws.{get-set, length-set_absent}
use sentinel_linux.Pipeline.Dedup.{DedupWindow, evict_expired, evict_to_cap, make_room, admit, seen}
use sentinel_linux.Pipeline.Dedup.Invariant.{
  IsValid, live_suffix, evict_expired_lem, has-eq-false, make_room_keeps_absent,
}
use sentinel_linux.Pipeline.Dedup.Seen.{seen-IsValid, seen_duplicate_iff}
use text.Mathlib.TextEquality.{eq_iff}

-- How many entries are younger than the key's.
abbrev pub younger : String → Dict String ℕ → ℕ
younger k [] = 0
younger k ((j, t) ∷ d) = let rest = younger k d in if j == k then length d else rest

-- The key is held until `expiry`, and at most the keys admitted after the `mark`-th are younger.
pub record Holds (key : String) (expiry mark : ℕ) (w : DedupWindow) : Type 0 where
  pub held : Dict.get key w.entries ≡ some expiry
  pub rank : younger key w.entries + mark ≤ w.misses

younger-live_suffix :
    (now : ℕ) (key : String) (t : ℕ) (d : Dict String ℕ)
    → Dict.get key d ≡ some t
    → now < t
    → (Dict.get key (live_suffix now d) ≡ some t)
      × (younger key (live_suffix now d) ≡ younger key d)
unfolding Dict.get
younger-live_suffix now key t [] h lt = cc
younger-live_suffix now key t ((j, s) ∷ d) h lt = ground (arith, younger-live_suffix now key t d)

younger-remove_oldest :
    (key : String) (t : ℕ) (d : Dict String ℕ)
    → Dict.get key d ≡ some t
    → younger key d + 1 < length d
    → (Dict.get key (remove_oldest d) ≡ some t) × (younger key (remove_oldest d) ≡ younger key d)
unfolding Dict.get remove_oldest
younger-remove_oldest key t [] h lt = cc
younger-remove_oldest key t ((j, s) ∷ d) h lt = ground arith

younger-set :
    (key other : String) (t s : ℕ) (d : Dict String ℕ)
    → Dict.get key d ≡ some t
    → Dict.get other d ≡ none
    → (Dict.get key (Dict.set other s d) ≡ some t)
      × (younger key (Dict.set other s d) ≤ younger key d + 1)
unfolding Dict.get Dict.set
younger-set key other t s [] h a = cc
younger-set key other t s ((j, r) ∷ d) h a =
    ground (
      arith,
      younger-set key other t s d,
      eq_iff j key,
      eq_iff j other,
      length-set_absent other s d,
    )

evict_expired-Holds :
    (now : ℕ) (key : String) (expiry mark : ℕ) {w : DedupWindow}
    → now < expiry
    → Holds key expiry mark w
    → Holds key expiry mark (evict_expired now w)
evict_expired-Holds now key expiry mark {w} lt h =
    let s = younger-live_suffix now key expiry w.entries h.held lt in
    rw evict_expired_lem (record { held = s.0; rank = omega (arith, s.1, h.rank) })

make_room-Holds :
    (key : String) (expiry mark : ℕ) (w : DedupWindow)
    → w.misses + 1 < mark + w.max_entries
    → Holds key expiry mark w
    → Holds key expiry mark (make_room w)
unfolding make_room evict_to_cap
make_room-Holds key expiry mark w few h = elim (Bool-cases (leb w.max_entries (length w.entries))) [
  | inr roomy ↦ rw roomy h
  | inl full ↦
      let s =
        younger-remove_oldest key expiry w.entries h.held
          (omega (arith, h.rank, leb→le w.max_entries (length w.entries) full)) in
      rw full (record { held = s.0; rank = omega (arith, s.1, h.rank) })
]

admit-Holds :
    (now : ℕ) (key other : String) (expiry mark : ℕ) (w : DedupWindow)
    → w.misses + 1 < mark + w.max_entries
    → Dict.get other w.entries ≡ none
    → Holds key expiry mark w
    → Holds key expiry mark (admit now other w)
unfolding admit
admit-Holds now key other expiry mark w few absent h =
    let r = make_room w in
    let rh : Holds key expiry mark r = make_room-Holds key expiry mark w few h in
    let s =
      younger-set key other expiry (now + r.ttl) r.entries rh.held
        (make_room_keeps_absent other w absent) in
    record { held = s.0; rank = omega (arith, s.1, rh.rank) }

module _ (now : ℕ) (other : String) (w : DedupWindow) where
  seen_params :
      ((seen now other w).0.max_entries ≡ w.max_entries)
      × ((seen now other w).0.ttl ≡ w.ttl)
      × (w.misses ≤ (seen now other w).0.misses)
  unfolding seen
  seen_params = ground arith

  seen_fresh_misses :
      (seen now other w).1 ≡ false
      → ((seen now other w).0.misses ≡ w.misses + 1)
        × (Dict.get other (evict_expired now w).entries ≡ none)
  unfolding seen Dict.has
  seen_fresh_misses h = ground arith

-- One more call, of any key, before the expiry.
seen-Holds :
    (now : ℕ) (key other : String) (expiry mark : ℕ) {w : DedupWindow}
    → now < expiry
    → (seen now other w).0.misses < mark + w.max_entries
    → Holds key expiry mark w
    → Holds key expiry mark (seen now other w).0
unfolding seen
seen-Holds now key other expiry mark {w} lt few h =
    let live = evict_expired now w in
    let lh : Holds key expiry mark live = evict_expired-Holds now key expiry mark lt h in
    elim (Bool-cases (Dict.has other live.entries)) [
      | inl dup ↦ rw dup (record { held = lh.held; rank = lh.rank })
      | inr fresh ↦ rw fresh (
          admit-Holds now key other expiry mark live
            (omega (arith, (seen_fresh_misses now other w (rw fresh)).0))
            (has-eq-false other live.entries fresh) lh)
    ]

-- The window after a run of timed calls.
unfoldable pub run : DedupWindow → List (ℕ × String) → DedupWindow
run w [] = w
run w ((now, key) ∷ calls) = run (seen now key w).0 calls

-- The clock does not run backwards from `start` through the calls to `end`.
abbrev pub Chronological : ℕ → List (ℕ × String) → ℕ → Type 0
Chronological start [] end = start ≤ end
Chronological start ((now, key) ∷ calls) end = (start ≤ now) × Chronological now calls end

run-misses : (w : DedupWindow) (calls : List (ℕ × String)) → w.misses ≤ (run w calls).misses
unfolding run
run-misses w [] = omega arith
run-misses w ((now, key) ∷ calls) =
    omega (arith, run-misses (seen now key w).0 calls, (seen_params now key w).2)

Chronological-le :
    (start end : ℕ) (calls : List (ℕ × String)) → Chronological start calls end → start ≤ end
Chronological-le start end [] c = c
Chronological-le start end ((now, key) ∷ calls) c =
    omega (arith, Chronological-le now end calls c.1)

run-Holds :
    (key : String) (expiry mark start end : ℕ) (w : DedupWindow) (calls : List (ℕ × String))
    → Chronological start calls end
    → end < expiry
    → (run w calls).misses < mark + w.max_entries
    → IsValid start w
    → Holds key expiry mark w
    → (last : ℕ) × IsValid last (run w calls) × Holds key expiry mark (run w calls) × (last ≤ end)
unfolding run
run-Holds key expiry mark start end w [] c lt few v h = (start, v, h, c)
run-Holds key expiry mark start end w ((now, other) ∷ calls) c lt few v h =
    let next = (seen now other w).0 in
    let p = seen_params now other w in
    run-Holds key expiry mark now end next calls c.1 lt (omega (arith, p.0))
      (seen-IsValid start now other c.0 v)
      (seen-Holds now key other expiry mark (omega (arith, Chronological-le now end calls c.1))
        (omega (arith, run-misses next calls)) h)

younger-set_absent :
    (key : String) (t : ℕ) (d : Dict String ℕ)
    → Dict.get key d ≡ none
    → younger key (Dict.set key t d) ≡ 0
unfolding Dict.get Dict.set
younger-set_absent key t [] h = ground (arith, eq_iff key key)
younger-set_absent key t ((j, s) ∷ d) h = ground (arith, younger-set_absent key t d, eq_iff j key)

make_room_params :
    (w : DedupWindow) → ((make_room w).ttl ≡ w.ttl) × ((make_room w).misses ≡ w.misses)
unfolding make_room evict_to_cap
make_room_params w = ground arith

admit-Holds_self :
    (now : ℕ) (key : String) (w : DedupWindow)
    → Dict.get key w.entries ≡ none
    → Holds key (now + w.ttl) (w.misses + 1) (admit now key w)
unfolding admit
admit-Holds_self now key w absent =
    let r = make_room w in
    let gone : Dict.get key r.entries ≡ none = make_room_keeps_absent key w absent in
    let p = make_room_params w in
    record {
      held = rw (get-set, p.0) (ground (arith, eq_iff key key));
      rank = omega (arith, p.1, younger-set_absent key (now + r.ttl) r.entries gone);
    }

fresh-Holds :
    (now : ℕ) (key : String) (w : DedupWindow)
    → (seen now key w).1 ≡ false
    → Holds key (now + w.ttl) (w.misses + 1) (seen now key w).0
unfolding seen
fresh-Holds now key w h =
    let live = evict_expired now w in
    elim (Bool-cases (Dict.has key live.entries)) [
      | inl dup ↦ absurd (ground arith)
      | inr fresh ↦ rw fresh (admit-Holds_self now key live (has-eq-false key live.entries fresh))
    ]

-- A key that was admitted at `start` is a duplicate at every later call before start + ttl, as
-- long as fewer than `max_entries` keys have been admitted in between, in any run of calls whose
-- clock does not run backwards.
pub admitted_once :
    (before start end : ℕ) (key : String) (w : DedupWindow) (calls : List (ℕ × String))
    → IsValid before w
    → before ≤ start
    → (seen start key w).1 ≡ false
    → Chronological start calls end
    → end < start + w.ttl
    → (run (seen start key w).0 calls).misses < w.misses + 1 + w.max_entries
    → (seen end key (run (seen start key w).0 calls)).1 ≡ true
admitted_once before start end key w calls v le fresh c lt few =
    let next = (seen start key w).0 in
    let r =
      run-Holds key (start + w.ttl) (w.misses + 1) start end next calls c lt
        (omega (arith, (seen_params start key w).0)) (seen-IsValid before start key le v)
        (fresh-Holds start key w fresh) in
    (seen_duplicate_iff r.0 end key r.1).1 (start + w.ttl, r.2.held, lt)

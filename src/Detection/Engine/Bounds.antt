-- ===== src/Detection/Engine/Bounds.antt =====
-- The memory of the engine: the number of tracked groups and the length of every window.
use sentinel_linux.Prelude.{
  ℕ, suc, ◌*◌, ◌≤◌, ◌<◌, ◌≡◌, refl, ap, Bool, true, Option, none, some, List, [], ◌∷◌, ◌++◌, length,
  leb, String, arith, Bool-cases, Option-cases, inl, inr,
}
use sentinel_linux.Prelude.Eq.{pair_key, ◌==◌}
use sentinel_linux.Dict
use sentinel_linux.Dict.{Dict, remove_oldest}
use sentinel_linux.Dict.Laws.{length-set, length-remove_oldest}
use sentinel_linux.Detection.Engine.Thresholds.{set_self}
use sentinel_linux.SlidingWindow.{trim}
use sentinel_linux.Events.{Event}
use sentinel_linux.Detection.Value.{Value}
use sentinel_linux.Detection.Schema.{Condition, threshold, make}
use sentinel_linux.Detection.Evaluator.{resolve_field}
use sentinel_linux.Detection.Engine.{
  Environment, DetectionEngine, window_for, slide, group_key, second, threshold_fires, count_match,
  condition_fires,
}

abbrev Windows : Type 0
Windows = Dict (String × String) (List ℕ)

-- Every window is shorter than `most`.
abbrev pub AllShort : ℕ → Windows → Type 0
AllShort most [] = Unit
AllShort most ((k, w) ∷ d) = (length w < most) × AllShort most d

pub record IsBounded (most : ℕ) (eng : DetectionEngine) : Type 0 where
  pub positive : 1 ≤ eng.max_groups
  pub groups : length eng.windows ≤ eng.max_groups
  pub short : AllShort most eng.windows

-- The rule's threshold, if it has one, counts to at most `most`.
abbrev pub CountsTo : ℕ → Condition → Type 0
CountsTo most (threshold (make c window count group_by)) = count ≤ most
CountsTo most _ = Unit

AllShort-set :
    (most : ℕ) (key : String × String) (w : List ℕ) (d : Windows)
    → length w < most
    → AllShort most d
    → AllShort most (Dict.set key w d)
unfolding Dict.set
AllShort-set most key w [] lt h = (lt, tt)
AllShort-set most key w ((k, v) ∷ d) lt h = elim (Bool-cases (k == key)) [
  | inl same ↦ rw same (lt, h.1)
  | inr other ↦ rw other (h.0, AllShort-set most key w d lt h.1)
]

AllShort-remove_oldest :
    (most : ℕ) (d : Windows) → AllShort most d → AllShort most (remove_oldest d)
unfolding remove_oldest
AllShort-remove_oldest most [] h = h
AllShort-remove_oldest most ((k, v) ∷ d) h = h.1

AllShort-get :
    (most : ℕ) (key : String × String) (w : List ℕ) (d : Windows)
    → AllShort most d
    → Dict.get key d ≡ some w
    → length w < most
unfolding Dict.get
AllShort-get most key w [] h e = cc
AllShort-get most key w ((k, v) ∷ d) h e = elim (Bool-cases (k == key)) [
  | inl same ↦ omega (arith, h.0, ap (λ (l : List ℕ). length l) (some_injective (rw same at e)))
  | inr other ↦ AllShort-get most key w d h.1 (rw other at e)
]
  where
    some_injective : {x y : List ℕ} → some x ≡ some y → x ≡ y
    some_injective p = cc

length-set_known :
    (key : String × String) (w : List ℕ) (d : Windows)
    → Dict.has key d ≡ true
    → length (Dict.set key w d) ≡ length d
length-set_known key w d h = rw (length-set, h) refl

-- The window of a key and the dict that holds it, whichever way it came about.
record Held (most : ℕ) (key : String × String) (r : List ℕ × DetectionEngine) : Type 0 where
  bounded : IsBounded most r.1
  held : Dict.has key r.1.windows ≡ true
  short : length r.0 < most

new-Held :
    (most : ℕ) (key : String × String) (eng : DetectionEngine) (room : Windows)
    → 1 ≤ most
    → 1 ≤ eng.max_groups
    → length room < eng.max_groups
    → AllShort most room
    → Held most key ([], record eng { windows = Dict.set key [] room })
unfolding Dict.has
new-Held most key eng room pos positive fits s = record {
  bounded = record {
    positive = positive;
    groups = omega (arith, length-set-le key room);
    short = AllShort-set most key [] room (omega arith) s;
  };
  held = rw (set_self key [] room, Dict.has) refl;
  short = omega arith;
}
  where
    length-set-le : (k : String × String) (d : Windows) → length (Dict.set k [] d) ≤ suc (length d)
    length-set-le k d = ground (arith, length-set k [] d)

window_for-Held :
    (most : ℕ) (key : String × String) (eng : DetectionEngine)
    → 1 ≤ most
    → IsBounded most eng
    → Held most key (window_for key eng)
unfolding window_for Dict.has
window_for-Held most key eng pos b = elim (Option-cases (Dict.get key eng.windows)) [
  | inr (w, known) ↦
      rw (known, window_for)
        (record {
          bounded = b;
          held = rw (known, Dict.has) refl;
          short = AllShort-get most key w eng.windows b.short known;
        })
  | inl new ↦ elim (Bool-cases (leb eng.max_groups (length eng.windows))) [
    | inl full ↦
        rw (new, window_for, full)
          (new-Held most key eng (remove_oldest eng.windows) pos b.positive
            (omega (arith, b.groups, b.positive, length-remove_oldest eng.windows))
            (AllShort-remove_oldest most eng.windows b.short))
    | inr room ↦
        rw (new, window_for, room)
          (new-Held most key eng eng.windows pos b.positive (ground arith) b.short)
  ]
]

slide-IsBounded :
    (most : ℕ) (key : String × String) (moment span count : ℕ) (r : List ℕ × DetectionEngine)
    → 1 ≤ most
    → count ≤ most
    → Held most key r
    → IsBounded most (slide key moment span count r).0
unfolding slide
slide-IsBounded most key moment span count r pos le h =
    elim (Bool-cases (leb count (length (trim moment span (r.0 ++ moment ∷ []))))) [
      | inl full ↦ rw (full, slide) (keep_window [] (omega arith))
      | inr below ↦
          rw (below, slide) (keep_window (trim moment span (r.0 ++ moment ∷ [])) (ground arith))
    ]
  where
    keep_window :
        (w : List ℕ)
        → length w < most
        → IsBounded most (record (r.1) { windows = Dict.set key w r.1.windows })
    keep_window w lt = record {
      positive = h.bounded.positive;
      groups = omega (arith, h.bounded.groups, length-set_known key w r.1.windows h.held);
      short = AllShort-set most key w r.1.windows lt h.bounded.short;
    }

module _ (env : Environment) (most : ℕ) (event : Event) (view : Value) (pos : 1 ≤ most) where
  count-IsBounded :
      (id : String) (span count : ℕ) (group : Option Value) (eng : DetectionEngine)
      → count ≤ most
      → IsBounded most eng
      → IsBounded most (count_match env id span count event group eng).0
  count-IsBounded id span count none eng le b = b
  count-IsBounded id span count (some group) eng le b =
      slide-IsBounded most (id, group_key env group) event.timestamp span count
        (window_for (id, group_key env group) eng) pos le
        (window_for-Held most (id, group_key env group) eng pos b)

  pub condition-IsBounded :
      (id : String) (c : Condition) (eng e : DetectionEngine) (fired : Bool)
      → CountsTo most c
      → IsBounded most eng
      → condition_fires env id c event view eng ≡ some (e, fired)
      → IsBounded most e
  unfolding threshold_fires
  condition-IsBounded id (threshold (make c w n g)) eng e fired le b h =
      ground (arith, count-IsBounded id (w * second) n (resolve_field g view) eng le b)
  condition-IsBounded id _ eng e fired le b h = ground arith

-- ===== src/Alerting/Manager/Stamps.antt =====
-- What one call of `AlertManager.process` (src/sentinel/alerting/manager.py) does to the throttle of a
-- rule.
use text.Mathlib.TextEquality.{eq_iff}
use mathlib.Core.Path.{subst}
use sentinel_linux.Prelude.{
  ℕ, ◌+◌, ◌≡◌, refl, ap, ◌∙◌, Bool, true, false, Option, none, some, List, [], ltb, not, arith,
  if◌then◌else◌, Bool-cases, inl, inr, ◌⊎◌, ◌&&◌, String,
}
use sentinel_linux.Prelude.Eq.{text_key, ◌==◌}
use sentinel_linux.Dict
use sentinel_linux.Dict.{Dict}
use sentinel_linux.Dict.Laws.{get-set}
use sentinel_linux.SlidingWindow.Limiter.{admit}
use sentinel_linux.Pipeline.Dedup.{DedupWindow, seen}
use sentinel_linux.Detection.Schema.{Throttle}
use sentinel_linux.Alerting.Model.{Alert, from_detection}
use sentinel_linux.Alerting.Manager.{
  AlertManager, process, by_dedup, by_throttle, is_throttled, withhold, notify, hits_of,
  throttle_for, budget_by, get_or,
}
use sentinel_linux.Alerting.Manager.Counters.{Call, handle, throttle_for-dedup}

-- An alert that was sent to the sinks, for the rule.
abbrev pub is_sent : String → Option Alert → Bool
is_sent rule none = false
is_sent rule (some alert) = alert.notified && (alert.rule_id == rule)

-- One step of the throttle's window of a rule.
abbrev pub step_of : ℕ → String → AlertManager → List ℕ × Bool
step_of now rule m = admit (throttle_for rule m).1 (throttle_for rule m).0 now (hits_of rule m)

-- What a call does to the throttle of a rule: nothing, or one step of its window, whose answer
-- decides whether the alert is sent.
abbrev pub FeedsFrom : String → ℕ → ℕ × ℕ → List ℕ → AlertManager × Option Alert → Type 0
FeedsFrom rule now budget hits (m', o) =
    (throttle_for rule m' ≡ budget)
    × ((hits_of rule m' ≡ hits) × (is_sent rule o ≡ false)
        ⊎ (hits_of rule m' ≡ (admit budget.1 budget.0 now hits).0)
          × (is_sent rule o ≡ (admit budget.1 budget.0 now hits).1))

abbrev pub Feeds : String → ℕ → AlertManager → AlertManager × Option Alert → Type 0
Feeds rule now m o = FeedsFrom rule now (throttle_for rule m) (hits_of rule m) o

module _ (rule : String) where
  throttle_for_same :
      (m m' : AlertManager)
      → m'.rule_throttles ≡ m.rule_throttles
      → m'.throttle_max ≡ m.throttle_max
      → m'.throttle_window ≡ m.throttle_window
      → throttle_for rule m' ≡ throttle_for rule m
  unfolding throttle_for
  throttle_for_same m m' own most window =
      ap (λ (d : Dict String Throttle). budget_by (Dict.get rule d) m') own
      ∙ go (Dict.get rule m.rule_throttles)
    where
      go : (o : Option Throttle) → budget_by o m' ≡ budget_by o m
      go none = cc
      go (some own) = refl

  by_throttle-keeps :
      (a : Alert) (m : AlertManager) (throttled : Bool)
      → let o = by_throttle a (m, throttled) in
        (o.0.rule_hits ≡ m.rule_hits)
        × (throttle_for rule o.0 ≡ throttle_for rule m)
        × (is_sent rule o.1 ≡ (a.notified && not throttled) && (a.rule_id == rule))
  unfolding withhold notify
  by_throttle-keeps a m true =
      (refl, throttle_for_same m (withhold a m).0 refl refl refl, ground arith)
  by_throttle-keeps a m false =
      (refl, throttle_for_same m (notify a m).0 refl refl refl, ground arith)

  is_throttled-hits :
      (now : ℕ) (r : String) (m : AlertManager)
      → hits_of rule (is_throttled now r m).0
        ≡ (if r == rule then (step_of now r m).0 else hits_of rule m)
  unfolding is_throttled hits_of
  is_throttled-hits now r m =
      rw get-set
        (elim (Bool-cases (r == rule)) [ inl same ↦ rw same refl | inr other ↦ rw other refl ])

  by_throttle-Feeds :
      (now : ℕ) (a : Alert) (m : AlertManager)
      → a.notified ≡ true
      → Feeds rule now m (by_throttle a (is_throttled now a.rule_id m))
  unfolding is_throttled hits_of
  by_throttle-Feeds now a m note =
      let m1 = (is_throttled now a.rule_id m).0 in
      let ok = (step_of now a.rule_id m).1 in
      let k = by_throttle-keeps a m1 (not ok) in
      let hits =
        ap (λ (d : Dict String (List ℕ)). get_or [] (Dict.get rule d)) k.0
        ∙ is_throttled-hits now a.rule_id m in
      (
        k.1 ∙ throttle_for_same m m1 refl refl refl,
        elim (Bool-cases (a.rule_id == rule)) [
          | inl same ↦
              let e : a.rule_id ≡ rule = (eq_iff a.rule_id rule).0 same in
              inr (
                hits ∙ rw same refl ∙ ap (λ r. (step_of now r m).0) e,
                k.2 ∙ rw (same, note) (twice ok) ∙ ap (λ r. (step_of now r m).1) e,
              )
          | inr other ↦ inl (hits ∙ rw other refl, k.2 ∙ rw (other, note) (never (not (not ok))))
        ],
      )
    where
      twice : (b : Bool) → (not (not b)) && true ≡ b
      twice b = ground arith

      never : (b : Bool) → b && false ≡ false
      never b = ground arith

  by_dedup-Feeds :
      (now : ℕ) (a : Alert) (m : AlertManager) (answer : DedupWindow × Bool)
      → a.notified ≡ true
      → Feeds rule now m (by_dedup now a answer m)
  unfolding hits_of
  by_dedup-Feeds now a m (dedup, true) note = (
    throttle_for_same m (record m { dedup = dedup; deduped = m.deduped + 1 }) refl refl refl,
    inl (refl, refl),
  )
  by_dedup-Feeds now a m (dedup, false) note =
      subst
        (λ budget.
          FeedsFrom rule now budget (hits_of rule m)
            (by_throttle a (is_throttled now a.rule_id (record m { dedup = dedup }))))
        (throttle_for-dedup rule dedup m)
        (by_throttle-Feeds now a (record m { dedup = dedup }) note)

  pub handle-Feeds : (c : Call) (m : AlertManager) → Feeds rule c.hit_at m (handle c m)
  unfolding process from_detection hits_of
  handle-Feeds c m = elim (Bool-cases (ltb c.detection.severity m.min_severity)) [
    | inl low ↦ rw low (
      throttle_for_same m (record m { suppressed_severity = m.suppressed_severity + 1 }) refl refl
          refl,
      inl (refl, refl),
    )
    | inr high ↦
        let alert = from_detection c.detection in
        rw high (by_dedup-Feeds c.hit_at alert m (seen c.seen_at alert.dedup_key m.dedup) refl)
  ]

-- ===== src/Alerting/Manager/Budgets.antt =====
-- The throttle of src/sentinel/alerting/manager.py over any run: the notifications of one rule.
use sentinel_linux.Prelude.{ℕ, ◌≡◌, List, [], ◌∷◌, if◌then◌else◌, String}
use sentinel_linux.Prelude.Eq.{text_key}
use sentinel_linux.Dict
use sentinel_linux.Dict.{Dict}
use sentinel_linux.SlidingWindow.Limiter.{Budget, Tracks}
use sentinel_linux.Alerting.Manager.{AlertManager, hits_of, throttle_for}
use sentinel_linux.Alerting.Manager.Counters.{Call, handle}
use sentinel_linux.Alerting.Manager.Stamps.{is_sent}

-- When the rule's notifications were sent, over a run.
unfoldable pub sent_at : String → List Call → AlertManager → List ℕ
sent_at rule [] m = []
sent_at rule (c ∷ calls) m =
    let one = handle c m in
    let rest = sent_at rule calls one.0 in if is_sent rule one.1 then c.hit_at ∷ rest else rest

abbrev pub times : List Call → List ℕ
times [] = []
times (c ∷ calls) = c.hit_at ∷ times calls

module _ (rule : String) where
  -- A budget that follows the rule's window: its span and limit, the stamps, and those sent.
  record Follows (limit span last : ℕ) (m : AlertManager) (b : Budget) : Type 0 where
    pub budget : throttle_for rule m ≡ (limit, span)
    pub window : hits_of rule m ≡ b.window
    pub tracks : Tracks span limit last b

-- ===== src/Alerting/Lanes.antt =====
-- `_SinkLane` of src/sentinel/alerting/manager.py, with `AlertSink.accepts` of
-- src/sentinel/alerting/sinks/base.py: one sink's bounded queue and its delivery worker. The queue is
-- the `asyncio.Queue` of the lane, the time stamps beside its alerts left out; `delivering` is the
-- alert whose `emit` the worker awaits. How an `emit` ends is an argument.
pub mod Accounting
use sentinel_linux.Prelude.{
  ℕ, ◌+◌, ◌-◌, Bool, true, false, Option, none, some, List, [], ◌∷◌, ◌++◌, length, leb, eqb, not,
  ◌&&◌, ◌||◌, if◌then◌else◌, String,
}
use text.Mathlib.Text.{◌==◌ as str_eq}
use sentinel_linux.Alerting.Model.{Alert}

pub record SinkLane : Type 0 where
  pub name : String
  pub min_severity : ℕ
  pub maxsize : ℕ
  pub queue : List Alert
  pub unfinished : ℕ
  pub worker : Bool
  pub delivering : Option Alert
  pub delivered : ℕ
  pub errors : ℕ
  pub dropped : ℕ

-- `AlertSink.__init__` checks the name and the severity floor; `none` is the ValueError.
unfoldable pub lane : String → ℕ → ℕ → Option SinkLane
lane name min_severity maxsize =
    if str_eq name "" || not (leb min_severity 7)
    then none
    else some (record {
      name = name;
      min_severity = min_severity;
      maxsize = maxsize;
      queue = [];
      unfinished = 0;
      worker = false;
      delivering = none;
      delivered = 0;
      errors = 0;
      dropped = 0;
    })

-- `self.sink.accepts(alert)`
abbrev pub accepts : SinkLane → Alert → Bool
accepts l alert = leb l.min_severity alert.severity

-- `asyncio.Queue.full`: a queue of size 0 has no bound.
abbrev pub lane_full : SinkLane → Bool
lane_full l = not (eqb l.maxsize 0) && leb l.maxsize (length l.queue)

-- `offer`: the worker is started if there is none; a full queue drops the alert and counts it.
unfoldable pub offer : Alert → SinkLane → SinkLane
offer alert l =
    if lane_full l
    then record l { worker = true; dropped = l.dropped + 1 }
    else record l { worker = true; queue = l.queue ++ alert ∷ []; unfinished = l.unfinished + 1 }

-- `_deliver`, up to the await of `emit`; `none` means that the worker cannot take this step.
abbrev pub next_delivery : Bool → Option Alert → List Alert → SinkLane → Option SinkLane
next_delivery true none (alert ∷ rest) l = some (record l { queue = rest; delivering = some alert })
next_delivery _ _ _ l = none

unfoldable pub begin_delivery : SinkLane → Option SinkLane
begin_delivery l = next_delivery l.worker l.delivering l.queue l

-- How an `emit` ended: it returned, or it raised or outlived its deadline.
pub data Emit : Type 0 where
  sent failed : Emit

abbrev pub counted_as : Emit → SinkLane → SinkLane
counted_as sent l = record l { delivered = l.delivered + 1 }
counted_as failed l = record l { errors = l.errors + 1 }

-- The rest of the turn of `_deliver`; the `finally` marks the alert as done.
abbrev pub settle : Option Alert → Emit → SinkLane → Option SinkLane
settle none outcome l = none
settle (some _) outcome l =
    some (record (counted_as outcome l) { delivering = none; unfinished = l.unfinished - 1 })

unfoldable pub end_delivery : Emit → SinkLane → Option SinkLane
end_delivery outcome l = settle l.delivering outcome l

-- `drain` returns at once, before any deadline, exactly when this holds.
abbrev pub drained : SinkLane → Bool
drained l = not l.worker || eqb l.unfinished 0

-- `stop`: what is queued is counted as dropped, and the worker is cancelled. A delivery under way is
-- cancelled with it: the CancelledError passes the `except Exception`, and `task_done` still runs.
abbrev pub cancelled : Option Alert → SinkLane → SinkLane
cancelled none l = l
cancelled (some _) l = record l { delivering = none; unfinished = l.unfinished - 1 }

unfoldable pub stop : SinkLane → SinkLane × ℕ
stop l =
    let abandoned = length l.queue in
    let idle = if l.worker then record (cancelled l.delivering l) { worker = false } else l in
    (record idle { dropped = idle.dropped + abandoned }, abandoned)

-- ===== src/Collectors/Integrity/Poll.antt =====
-- One poll of integrity.py: a scan, and what becomes of it.
use sentinel_linux.Prelude.{ℕ, ◌+◌, Bool, true, Option, some, List, [], if◌then◌else◌, String}
use sentinel_linux.Prelude.Int.{minus}
use sentinel_linux.Dict.{Dict}
use sentinel_linux.Events.{Event}
use sentinel_linux.Collectors.Emit.{Emitter, publish}
use sentinel_linux.Collectors.Integrity.{FileState, diff, raw_of_change}
use sentinel_linux.Collectors.Integrity.Scan.{
  Config, World, ScanState, Outcome, running, finished, interrupted, scan_roots,
}

abbrev pub racy_window_ns : ℕ
racy_window_ns = 2000000000

-- `_STOP_BUDGET_S`, in the unit of the monotonic clock: nanoseconds.
abbrev pub stop_budget : ℕ
stop_budget = 2000000000

pub record FileIntegrityCollector : Type 0 where
  pub host : String
  pub config : Config
  pub baseline : Dict String FileState
  pub seeded : Bool
  pub emitter : Emitter
  pub hashed : ℕ
  pub hash_reused : ℕ
  pub missing : List String
  pub scan_deadline : Option ℕ
  pub stopping : Bool

-- `stop`
unfoldable pub stop : ℕ → FileIntegrityCollector → FileIntegrityCollector
stop now c = record c { scan_deadline = some (now + stop_budget); stopping = true }

-- What a scan counted stays counted, also when it was interrupted.
abbrev pub counted : ScanState → FileIntegrityCollector → FileIntegrityCollector
counted st c = record c { hashed = st.hashed; hash_reused = st.hash_reused; missing = st.missing }

module _ (digest : List ℕ → String) where
  -- `_scan`
  unfoldable pub scan : World → FileIntegrityCollector → Outcome
  unfolding scan_roots
  scan world c =
      scan_roots digest c.config world (minus world.time_ns racy_window_ns) c.scan_deadline
        c.baseline c.config.roots
        (record {
          snapshot = [];
          visited = 0;
          hashed = c.hashed;
          hash_reused = c.hash_reused;
          missing = c.missing;
        })

module _ (os_text sha256 : String → String) (local_hostname : String)
    (valid_event : Event → Bool) where
  unfoldable pub observe :
      (ℕ → ℕ) → Dict String FileState → FileIntegrityCollector → FileIntegrityCollector × List Event
  unfolding diff publish raw_of_change
  observe clock snapshot c =
      let out =
        publish sha256 local_hostname valid_event (raw_of_change os_text c.host) clock
          (diff c.baseline snapshot) c.emitter in
      if c.seeded
      then (record c { baseline = snapshot; emitter = out.0 }, out.1)
      else (record c { baseline = snapshot; seeded = true }, [])

  -- An interrupted scan ends the poll: its snapshot is not used.
  abbrev pub use_scan :
      (ℕ → ℕ) → Outcome → FileIntegrityCollector → FileIntegrityCollector × List Event
  use_scan clock (interrupted st) c = (counted st c, [])
  use_scan clock (finished st) c = observe clock st.snapshot (counted st c)
  use_scan clock (running st) c = observe clock st.snapshot (counted st c)

  -- `_drain_once`: the collector after a poll, and the events that it puts on the queue.
  unfoldable pub drain_once :
      (List ℕ → String)
      → World
      → (ℕ → ℕ)
      → FileIntegrityCollector
      → FileIntegrityCollector × List Event
  unfolding scan observe
  drain_once digest world clock c = use_scan clock (scan digest world c) c

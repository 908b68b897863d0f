-- ===== src/Collectors/Process/Drain.antt =====
-- What one poll of process.py does to the collector, before and after its first snapshot.
use sentinel_linux.Prelude.{
  ℕ, ◌≡◌, refl, Bool, true, List, length, if◌then◌else◌, String, inl, inr, Bool-cases, arith,
}
use sentinel_linux.Events.{Event}
use sentinel_linux.Dict.{Dict}
use sentinel_linux.Collectors.Emit.{Emits, publish-Emits}
use sentinel_linux.Collectors.Process.{
  Poll, ProcessCollector, scan, diff, raw_of_change, drain_once, observe, is_listed,
}
use sentinel_linux.Collectors.Procfs.{ProcState}

pub record Polled (snapshot : Dict ℕ ProcState) (before : ProcessCollector)
    (o : ProcessCollector × List Event) : Type 0 where
  pub based : o.0.baseline ≡ snapshot
  pub now_seeded : o.0.seeded ≡ true
  pub reported :
      Emits before.emitter o.0.emitter
        (if before.seeded then length (diff before.baseline snapshot) else 0)
        o.1

module _ (sha256 : String → String) (local_hostname : String) (valid_event : Event → Bool) where
  observed :
      (clock : ℕ → ℕ) (snapshot : Dict ℕ ProcState) (c : ProcessCollector)
      → Polled snapshot c (observe sha256 local_hostname valid_event clock snapshot c)
  unfolding observe
  observed clock snapshot c = elim (Bool-cases c.seeded) [
    | inl seeded ↦ rw seeded (record {
      based = refl;
      now_seeded = refl;
      reported =
          publish-Emits sha256 local_hostname valid_event (raw_of_change c.host) clock
            (diff c.baseline snapshot) c.emitter;
    })
    | inr first ↦ rw first (record {
      based = refl;
      now_seeded = refl;
      reported = record { each = omega arith; put = omega arith };
    })
  ]

module _ (os_text : String → String) (sha256 : String → String) (local_hostname : String)
    (valid_event : Event → Bool) where
  -- A poll takes its scan as the new baseline. The first one reports nothing; every later one gives,
  -- for each change that the comparison finds, one event on the queue or one dead letter.
  pub drain_once-Polled :
      (poll : Poll) (c : ProcessCollector)
      → Polled
          (scan os_text c.max_procs c.baseline poll)
          c
          (drain_once os_text sha256 local_hostname valid_event poll c)
  unfolding drain_once
  drain_once-Polled poll c =
      let h =
        observed sha256 local_hostname valid_event poll.clock
          (scan os_text c.max_procs c.baseline poll)
          (record c { source_available = is_listed poll.names }) in
      record { based = h.based; now_seeded = h.now_seeded; reported = h.reported }

-- ===== src/Collectors/Integrity/Watch.antt =====
-- Runs of polls of integrity.py, some of them interrupted, and what a stop does to a scan.
use sentinel_linux.Prelude.{
  ℕ, ◌≡◌, refl, Bool, true, List, [], ◌∷◌, ◌++◌, length, if◌then◌else◌, String, inl, inr,
  Bool-cases, arith,
}
use sentinel_linux.Prelude.Eq.{text_key}
use sentinel_linux.Events.{Event}
use sentinel_linux.Dict.{Dict}
use sentinel_linux.Collectors.Emit.{Emits, publish-Emits}
use sentinel_linux.Collectors.Integrity.{FileState, FileChange, diff, raw_of_change}
use sentinel_linux.Collectors.Integrity.Scan.{
  World, ScanState, Outcome, running, finished, interrupted,
}
use sentinel_linux.Collectors.Integrity.Poll.{
  FileIntegrityCollector, scan, drain_once, observe, use_scan, counted,
}

-- What a poll reports on this outcome.
abbrev pub reported : Outcome → Dict String FileState → List FileChange
reported (interrupted st) baseline = []
reported (finished st) baseline = diff baseline st.snapshot
reported (running st) baseline = diff baseline st.snapshot

-- What a poll with this outcome makes of the collector.
pub record Advanced (snapshot : Dict String FileState) (before : FileIntegrityCollector)
    (o : FileIntegrityCollector × List Event) : Type 0 where
  pub based : o.0.baseline ≡ snapshot
  pub now_seeded : o.0.seeded ≡ true
  pub published :
      Emits before.emitter o.0.emitter
        (if before.seeded then length (diff before.baseline snapshot) else 0)
        o.1

pub record Untouched (before : FileIntegrityCollector) (o : FileIntegrityCollector × List Event)
    : Type 0 where
  pub same_baseline : o.0.baseline ≡ before.baseline
  pub same_seeded : o.0.seeded ≡ before.seeded
  pub same_counters : o.0.emitter ≡ before.emitter
  pub silent : o.1 ≡ []

abbrev pub Polled : Outcome → FileIntegrityCollector → FileIntegrityCollector × List Event → Type 0
Polled (interrupted st) before o = Untouched before o
Polled (finished st) before o = Advanced st.snapshot before o
Polled (running st) before o = Advanced st.snapshot before o

module _ (os_text sha256 : String → String) (local_hostname : String) (valid_event : Event → Bool)
    (clock : ℕ → ℕ) where
  observed :
      (snapshot : Dict String FileState) (c : FileIntegrityCollector)
      → Advanced snapshot c (observe os_text sha256 local_hostname valid_event clock snapshot c)
  unfolding observe
  observed snapshot c = elim (Bool-cases c.seeded) [
    | inl seeded ↦ rw seeded (record {
      based = refl;
      now_seeded = refl;
      published =
          publish-Emits sha256 local_hostname valid_event (raw_of_change os_text c.host) clock
            (diff c.baseline snapshot) c.emitter;
    })
    | inr first ↦ rw first (record {
      based = refl;
      now_seeded = refl;
      published = record { each = omega arith; put = omega arith };
    })
  ]

  counted_observed :
      (st : ScanState) (c : FileIntegrityCollector)
      → Advanced st.snapshot c
          (observe os_text sha256 local_hostname valid_event clock st.snapshot (counted st c))
  counted_observed st c =
      let h = observed st.snapshot (counted st c) in
      record { based = h.based; now_seeded = h.now_seeded; published = h.published }

  use_scan-Polled :
      (o : Outcome) (c : FileIntegrityCollector)
      → Polled o c (use_scan os_text sha256 local_hostname valid_event clock o c)
  use_scan-Polled (interrupted st) c = record {
    same_baseline = refl;
    same_seeded = refl;
    same_counters = refl;
    silent = refl;
  }
  use_scan-Polled (finished st) c = counted_observed st c
  use_scan-Polled (running st) c = counted_observed st c

  module _ (digest : List ℕ → String) where
    -- A scan that reaches its deadline changes neither the baseline nor a counter of events, and
    -- reports nothing; any other scan becomes the baseline, and each change that the comparison finds
    -- is one event on the queue or one dead letter, but for the first scan, which reports nothing.
    pub drain_once-Polled :
        (world : World) (c : FileIntegrityCollector)
        → Polled
            (scan digest world c)
            c
            (drain_once os_text sha256 local_hostname valid_event digest world clock c)
    unfolding drain_once
    drain_once-Polled world c = use_scan-Polled (scan digest world c) c

    -- The changes of a run of polls and the collector after it.
    pub watch : List World → FileIntegrityCollector → List FileChange × FileIntegrityCollector
    watch [] c = ([], c)
    watch (world ∷ worlds) c =
        let rest =
          watch worlds
            (drain_once os_text sha256 local_hostname valid_event digest world clock c).0 in
        (reported (scan digest world c) c.baseline ++ rest.0, rest.1)

-- ===== src/Tests/Pipeline.antt =====
-- Concrete runs of the pipeline, and the witnesses of its theorems.
use sentinel_linux.Prelude.{ℕ, ◌≡◌, refl, true, false, none, some, [], ◌∷◌, arith, String}
use sentinel_linux.Prelude.Eq.{text_key}
use sentinel_linux.Dict
use sentinel_linux.Pipeline.Dedup.{DedupWindow, seen, contains}
use sentinel_linux.Pipeline.Dedup
use sentinel_linux.Pipeline.Dedup.Invariant
use sentinel_linux.Pipeline.Dedup.Windows.{run, admitted_once}
use sentinel_linux.Pipeline.Queue
use sentinel_linux.Pipeline.Queue.{BoundedEventQueue, drop_newest, block, put, taken}
use sentinel_linux.Pipeline.Runner.{Pipeline, new}
use sentinel_linux.Pipeline.Runner.Steps.{World, accept, Reach, here, next, begin}
use sentinel_linux.Pipeline.Runner.Accounting.{Accounts}
use sentinel_linux.Pipeline.Runner.Histories.{Reach-Accounts, Drained, join-Drained}
use sentinel_linux.Pipeline.Runner.Supervise.{supervise, crashed, completed}

abbrev window : DedupWindow
window = record {
  ttl = 300;
  max_entries = 2;
  entries = ("a", 310) ∷ [];
  hits = 0;
  misses = 1;
  evictions_ttl = 0;
  evictions_cap = 0;
}

window-IsValid : Dedup.Invariant.IsValid 10 window
window-IsValid = record {
  ttl_pos = omega arith;
  cap_pos = omega arith;
  capped = omega arith;
  distinct = (tt, tt);
  ordered = omega arith;
  bounded = omega arith;
  accounted = refl;
}

b_is_fresh : (seen 20 "b" window).1 ≡ false
unfolding seen Dict.has Dict.get
b_is_fresh = refl

a_is_duplicate : (seen 20 "a" window).1 ≡ true
unfolding seen Dict.has Dict.get
a_is_duplicate = refl

-- Once the window is full the oldest key makes room, and is then fresh again.
a_is_evicted : (seen 22 "a" (run window ((20, "b") ∷ (21, "c") ∷ []))).1 ≡ false
unfolding run seen Dict.has Dict.get Dict.set Dict.remove_oldest
a_is_evicted = refl

c_misses : (run (seen 20 "b" window).0 ((21, "b") ∷ (22, "c") ∷ [])).misses ≡ 3
unfolding run seen Dict.has Dict.get Dict.set Dict.remove_oldest
c_misses = refl

admitted_once_example :
    (seen 30 "b" (run (seen 20 "b" window).0 ((21, "b") ∷ (22, "c") ∷ []))).1 ≡ true
admitted_once_example =
    admitted_once 10 20 30 "b" window ((21, "b") ∷ (22, "c") ∷ []) window-IsValid (omega arith)
      b_is_fresh (omega arith) (omega arith) (omega (arith, c_misses))

abbrev queue : BoundedEventQueue String
queue = record {
  maxsize = 1;
  policy = drop_newest;
  items = "e" ∷ [];
  unfinished = 1;
  dropped = 0;
  accepted = 1;
}

abbrev pipe : Pipeline String ℕ
pipe = record {
  queue = record {
    maxsize = 1;
    policy = block;
    items = [];
    unfinished = 0;
    dropped = 0;
    accepted = 0;
  };
  dedup = record {
    ttl = 300;
    max_entries = 10;
    entries = [];
    hits = 0;
    misses = 0;
    evictions_ttl = 0;
    evictions_cap = 0;
  };
  collectors = [];
  consumer = false;
  in_flight = none;
  processed = 0;
  deduped = 0;
  consumer_errors = 0;
  stop_requested = false;
}

pipe_new : new {E = String} {C = ℕ} 1 block 300 10 ≡ some pipe
unfolding new
pipe_new = refl

abbrev accepted_queue : BoundedEventQueue String
accepted_queue = record {
  maxsize = 1;
  policy = block;
  items = "e" ∷ [];
  unfinished = 1;
  dropped = 0;
  accepted = 1;
}

abbrev one_in : World String ℕ
one_in = record (begin pipe) {
  pipe = record pipe { queue = accepted_queue };
  offered = 1;
  accepted_log = "e" ∷ [];
}

put_e : put "e" pipe.queue ≡ taken accepted_queue
unfolding put
put_e = refl

one_in-Reach : Reach (λ s. s) (begin pipe) one_in
one_in-Reach = next here (accept "e" accepted_queue put_e refl)

Reach-Accounts_example : Accounts one_in
Reach-Accounts_example = Reach-Accounts (λ s. s) 1 block 300 10 pipe pipe_new one_in-Reach

join-Drained_example : Drained (begin pipe)
unfolding Queue.joined
join-Drained_example = join-Drained (λ s. s) 1 block 300 10 pipe pipe_new here refl

abbrev loaded : Pipeline String ℕ
loaded = record pipe { queue = accepted_queue }

delays :
    (supervise 0 (crashed 3 false ∷ crashed 5 false ∷ crashed 90 false ∷ completed ∷ [])).delays
    ≡ 1 ∷ 2 ∷ 1 ∷ []
unfolding supervise
delays = refl

-- ===== src/Collectors/Integrity/Scan/Invariant.antt =====
-- What holds of the state throughout a scan of integrity.py: a rule for any invariant, and two uses.
use sentinel_linux.Prelude.{
  ℕ, ◌+◌, ◌≤◌, ◌<◌, ◌≡◌, refl, false, Option, List, [], ◌∷◌, length, leb, ltb, ltb→lt, String, inl,
  inr, Bool-cases, arith,
}
use sentinel_linux.Prelude.Eq.{text_key}
use sentinel_linux.Prelude.Int.{ℤ}
use sentinel_linux.Dict.{Dict, Distinct, set, get}
use sentinel_linux.Dict.Laws.{Distinct-set, length-set-le}
use sentinel_linux.Collectors.Integrity.{FileState}
use sentinel_linux.Collectors.Integrity.Scan.{
  Config, World, ScanState, Outcome, running, finished, interrupted, scan_roots, scan_files, visit,
  enter_root, record_taken, Taken, absent, reused, hashed_now, unhashed, and_then, past_deadline,
  state_of, under_host_root, root_files, host_path, snapshot_file,
}

module _ (digest : List ℕ → String) (config : Config) (world : World) (racy_after_ns : ℤ)
    (deadline : Option ℕ) (previous : Dict String FileState) where
  -- What the loop has tested when it visits a file.
  pub record Visitable (st : ScanState) : Type 0 where
    pub early : past_deadline deadline (world.monotonic st.visited) ≡ false
    pub room : leb config.max_files (length st.snapshot) ≡ false

  module _ (P : ScanState → Type 0)
      (visits : (path : String) (st : ScanState)
        → Visitable st
        → P st
        → P (visit digest config world racy_after_ns deadline previous path st))
      (enters : (root : String) (st : ScanState)
        → P st
        → P (enter_root digest config world racy_after_ns deadline previous root st)) where
    scan_files_inv :
        (paths : List String) (st : ScanState)
        → P st
        → P (state_of (scan_files digest config world racy_after_ns deadline previous paths st))
    unfolding scan_files
    scan_files_inv [] st h = h
    scan_files_inv (path ∷ paths) st h =
        elim (Bool-cases (past_deadline deadline (world.monotonic st.visited))) [
          | inl late ↦ rw late h
          | inr early ↦ elim (Bool-cases (leb config.max_files (length st.snapshot))) [
            | inl full ↦ rw early (rw full h)
            | inr room ↦ rw early (
                rw room (
                  scan_files_inv paths
                    (visit digest config world racy_after_ns deadline previous path st)
                    (visits path st (record { early = early; room = room }) h)))
          ]
        ]

    then_inv :
        (o : Outcome) (next : ScanState → Outcome)
        → P (state_of o)
        → ((st : ScanState) → P st → P (state_of (next st)))
        → P (state_of (and_then o next))
    then_inv (running st) next h k = k st h
    then_inv (finished st) next h k = h
    then_inv (interrupted st) next h k = h

    pub scan_roots_inv :
        (roots : List String) (st : ScanState)
        → P st
        → P (state_of (scan_roots digest config world racy_after_ns deadline previous roots st))
    unfolding scan_roots
    scan_roots_inv [] st h = h
    scan_roots_inv (root ∷ roots) st h =
        let on_disk = under_host_root config.host_root root in
        let files = root_files digest config world racy_after_ns deadline previous on_disk in
        let entered = enter_root digest config world racy_after_ns deadline previous on_disk st in
        then_inv (scan_files digest config world racy_after_ns deadline previous files entered)
          (λ next. scan_roots digest config world racy_after_ns deadline previous roots next)
          (scan_files_inv files entered (enters on_disk st h))
          (λ next k. scan_roots_inv roots next k)

  -- The snapshot so far.
  pub record IsSnapshot (st : ScanState) : Type 0 where
    pub distinct : Distinct st.snapshot
    pub bounded : length st.snapshot ≤ config.max_files

  -- Every file was visited before the deadline.
  abbrev pub InTime : ScanState → Type 0
  InTime st = (i : ℕ) → i < st.visited → past_deadline deadline (world.monotonic i) ≡ false

  filed :
      (key : String) (s : FileState) (st : ScanState)
      → leb config.max_files (length st.snapshot) ≡ false
      → IsSnapshot st
      → (Distinct (set key s st.snapshot)) × (length (set key s st.snapshot) ≤ config.max_files)
  filed key s st room h = (
    Distinct-set key s st.snapshot h.distinct,
    ground (arith, length-set-le key s st.snapshot, room),
  )

  taken-IsSnapshot :
      (key : String) (t : Taken) (st : ScanState)
      → leb config.max_files (length st.snapshot) ≡ false
      → IsSnapshot st
      → IsSnapshot (record_taken key t st)
  taken-IsSnapshot key absent st room h = record { distinct = h.distinct; bounded = h.bounded }
  taken-IsSnapshot key (reused s) st room h =
      let f = filed key s st room h in record { distinct = f.0; bounded = f.1 }
  taken-IsSnapshot key (hashed_now s) st room h =
      let f = filed key s st room h in record { distinct = f.0; bounded = f.1 }
  taken-IsSnapshot key (unhashed s) st room h =
      let f = filed key s st room h in record { distinct = f.0; bounded = f.1 }

  taken-visited :
      (key : String) (t : Taken) (st : ScanState) → (record_taken key t st).visited ≡ st.visited + 1
  taken-visited key absent st = refl
  taken-visited key (reused s) st = refl
  taken-visited key (hashed_now s) st = refl
  taken-visited key (unhashed s) st = refl

  visit-IsSnapshot :
      (path : String) (st : ScanState)
      → Visitable st
      → IsSnapshot st
      → IsSnapshot (visit digest config world racy_after_ns deadline previous path st)
  unfolding visit
  visit-IsSnapshot path st v h =
      taken-IsSnapshot (host_path config.host_root path)
        (snapshot_file digest config.max_hash_bytes (world.file_probe path)
          (get (host_path config.host_root path) previous) racy_after_ns)
        st v.room h

  visit-InTime :
      (path : String) (st : ScanState)
      → Visitable st
      → InTime st
      → InTime (visit digest config world racy_after_ns deadline previous path st)
  unfolding visit
  visit-InTime path st v h i lt =
      let one =
        taken-visited (host_path config.host_root path)
          (snapshot_file digest config.max_hash_bytes (world.file_probe path)
            (get (host_path config.host_root path) previous) racy_after_ns)
          st in
      elim (Bool-cases (ltb i st.visited)) [
        | inl before ↦ h i (ltb→lt i st.visited before)
        | inr last ↦ let same : i ≡ st.visited = ground (arith, one, lt, last) in rw same v.early
      ]

  -- A scan files each path once and holds at most `max_files`, however it ends.
  pub scan_roots-IsSnapshot :
      (roots : List String) (st : ScanState)
      → IsSnapshot st
      → IsSnapshot
          (state_of (scan_roots digest config world racy_after_ns deadline previous roots st))
  scan_roots-IsSnapshot =
      scan_roots_inv IsSnapshot visit-IsSnapshot
        (λ root st h. record { distinct = h.distinct; bounded = h.bounded })

  pub scan_roots-InTime :
      (roots : List String) (st : ScanState)
      → InTime st
      → InTime (state_of (scan_roots digest config world racy_after_ns deadline previous roots st))
  scan_roots-InTime = scan_roots_inv InTime visit-InTime (λ root st h. h)

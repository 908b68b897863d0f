-- ===== src/Runtime/Retention.antt =====
-- `Runtime.prune` of src/sentinel/runtime.py. The database is outside the model: `delete` stands for
-- one call of `delete_stored_before` with the cutoff and the batch size, which returns the numbers of
-- deleted events and alerts, or fails. `stopping i` says whether shutdown has begun before batch `i`.
-- The loop runs on fuel.
use sentinel_linux.Prelude.{
  ℕ, zero, suc, ◌+◌, ◌-◌, ◌≡◌, Bool, true, false, Option, none, some, min, ltb, ◌&&◌, if◌then◌else◌,
}

abbrev pub prune_batch : ℕ
prune_batch = 5000

-- What a run of `prune` leaves: the database, the rows deleted, and the result.
pub record Pruned (Db : Type 0) : Type 0 where
  pub db : Db
  pub events : ℕ
  pub alerts : ℕ
  pub complete : Bool

module _ {Db : Type 0} (delete : Db → Option (Db × ℕ × ℕ)) (stopping : ℕ → Bool) where
  abbrev pub finished : Db → ℕ → ℕ → Bool → Pruned Db
  finished db events alerts complete = record {
    db = db;
    events = events;
    alerts = alerts;
    complete = complete;
  }

  unfoldable pub prune_loop : ℕ → ℕ → Db → ℕ → ℕ → Option (Pruned Db)
  prune_loop zero i db events alerts = none
  prune_loop (suc fuel) i db events alerts =
      if stopping i then some (finished db events alerts true) else (elim (delete db) [
        | none ↦ some (finished db events alerts false)
        | some (db', e, a) ↦
            let more = prune_loop fuel (i + 1) db' (events + e) (alerts + a) in
            if ltb e prune_batch && ltb a prune_batch
            then some (finished db' (events + e) (alerts + a) true)
            else more
      ])

  -- `prune`; without a retention period there is nothing to do.
  unfoldable pub prune : Bool → ℕ → Db → Option (Pruned Db)
  unfolding prune_loop
  prune retention fuel db =
      if retention then prune_loop fuel 0 db 0 0 else some (finished db 0 0 true)

-- What the runtime relies on: one call deletes up to the batch size of the expired rows of each kind.
pub record DeletesExpired {Db : Type 0} (delete : Db → Option (Db × ℕ × ℕ)) (expired : Db → ℕ × ℕ)
    : Type 0 where
  pub deletes :
      (db : Db)
      → (db' : Db) × (delete db
          ≡ some (db', min prune_batch (expired db).0, min prune_batch (expired db).1))
        × ((expired db').0 ≡ (expired db).0 - prune_batch)
        × ((expired db').1 ≡ (expired db).1 - prune_batch)

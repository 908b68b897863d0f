-- ===== src/Runtime/Buffer/Sides.antt =====
-- One kind of record in the write-behind buffer of src/sentinel/runtime.py: where the records are,
-- how many, and in which order of their write ids.
use mathlib.Core.Path.{subst}
use sentinel_linux.Prelude.{
  ℕ, zero, suc, ◌+◌, ◌-◌, ◌≤◌, ◌≡◌, refl, List, [], ◌∷◌, ◌++◌, length, length-append, length-drop,
  drop, arith,
}
use sentinel_linux.Runtime.Buffer.{
  Pending, Side, Batch, push, push_all, trim_side, put_back, count_rejected,
}

-- The write ids ascend strictly, from `lo` on and below `hi`.
abbrev pub Within : {R : Type 0} → ℕ → ℕ → List (Pending R) → Type 0
Within lo hi [] = lo ≤ hi
Within lo hi ((id, r) ∷ rows) = (lo ≤ id) × Within (id + 1) hi rows

module _ {R : Type 0} where
  pub Within-le : (lo hi : ℕ) (rows : List (Pending R)) → Within lo hi rows → lo ≤ hi
  Within-le lo hi [] w = w
  Within-le lo hi ((id, r) ∷ rows) w = omega (arith, w.0, Within-le (id + 1) hi rows w.1)

  pub Within-weaken :
      (lo lo' hi hi' : ℕ) (rows : List (Pending R))
      → lo' ≤ lo
      → hi ≤ hi'
      → Within lo hi rows
      → Within lo' hi' rows
  Within-weaken lo lo' hi hi' [] l h w = omega (arith, w)
  Within-weaken lo lo' hi hi' ((id, r) ∷ rows) l h w =
      (omega (arith, w.0), Within-weaken (id + 1) (id + 1) hi hi' rows (omega arith) h w.1)

  pub Within-append :
      (lo mid hi : ℕ) (xs ys : List (Pending R))
      → Within lo mid xs
      → Within mid hi ys
      → Within lo hi (xs ++ ys)
  Within-append lo mid hi [] ys w v = Within-weaken mid lo hi hi ys w (omega arith) v
  Within-append lo mid hi ((id, r) ∷ xs) ys w v = (w.0, Within-append (id + 1) mid hi xs ys w.1 v)

  pub Within-drop :
      (n lo hi : ℕ) (rows : List (Pending R)) → Within lo hi rows → Within lo hi (drop n rows)
  Within-drop zero lo hi rows w = w
  Within-drop (suc n) lo hi [] w = w
  Within-drop (suc n) lo hi ((id, r) ∷ rows) w =
      Within-weaken (id + 1) lo hi hi (drop n rows) (omega (arith, w.0)) (omega arith)
        (Within-drop n (id + 1) hi rows w.1)

  -- After `n` records, with ids below `next`: each is acknowledged, rejected, being written,
  -- buffered or counted as unpersisted, and in this order of places the ids ascend.
  pub record Sound (n next : ℕ) (stored : List (Pending R)) (batch : Batch R) (s : Side R)
      : Type 0 where
    pub total :
        n ≡ length stored + batch.rejected + length batch.left + length s.pending + s.unpersisted
    pub first : ℕ
    pub second : ℕ
    pub done : Within 0 first stored
    pub writing : Within first second batch.left
    pub waiting : Within second next s.pending

  pub push-Sound :
      (r : R) {n next : ℕ} {stored : List (Pending R)} {batch : Batch R} {s : Side R}
      → Sound n next stored batch s
      → Sound (n + 1) (next + 1) stored batch (push next r s)
  unfolding push
  push-Sound r {n} {next} {stored} {batch} {s} t = record {
    total = omega (arith, t.total, length-append s.pending ((next, r) ∷ []));
    first = t.first;
    second = t.second;
    done = t.done;
    writing = t.writing;
    waiting =
        Within-append t.second next (next + 1) s.pending ((next, r) ∷ []) t.waiting
          (omega arith, omega arith);
  }

  -- Ids are given out to the other kind as well.
  pub later-Sound :
      {n next next' : ℕ} {stored : List (Pending R)} {batch : Batch R} {s : Side R}
      → next ≤ next'
      → Sound n next stored batch s
      → Sound n next' stored batch s
  later-Sound {n} {next} {next'} {stored} {batch} {s} le t = record {
    total = t.total;
    first = t.first;
    second = t.second;
    done = t.done;
    writing = t.writing;
    waiting = Within-weaken t.second t.second next next' s.pending (omega arith) le t.waiting;
  }

  recount :
      {n n' next next' : ℕ} {stored : List (Pending R)} {batch : Batch R} {s : Side R}
      → n ≡ n'
      → next ≡ next'
      → Sound n next stored batch s
      → Sound n' next' stored batch s
  recount {n} {n'} {next} {next'} {stored} {batch} {s} en ex t =
      subst (λ i. Sound i next' stored batch s) en (subst (λ i. Sound n i stored batch s) ex t)

  pub push_all-Sound :
      (rs : List R) {n next : ℕ} {stored : List (Pending R)} {batch : Batch R} {s : Side R}
      → Sound n next stored batch s
      → Sound (n + length rs) (next + length rs) stored batch (push_all next rs s)
  unfolding push_all
  push_all-Sound [] t = recount (omega arith) (omega arith) t
  push_all-Sound (r ∷ rs) t =
      recount (omega arith) (omega arith) (push_all-Sound rs (push-Sound r t))

  pub trim_side-Sound :
      (cap : ℕ) {n next : ℕ} {stored : List (Pending R)} {batch : Batch R} {s : Side R}
      → Sound n next stored batch s
      → Sound n next stored batch (trim_side cap s)
  unfolding trim_side
  trim_side-Sound cap {n} {next} {stored} {batch} {s} t = record {
    total = omega (arith, t.total, length-drop (length s.pending - cap) s.pending);
    first = t.first;
    second = t.second;
    done = t.done;
    writing = t.writing;
    waiting = Within-drop (length s.pending - cap) t.second next s.pending t.waiting;
  }

  -- The batch goes back to the front of the buffer.
  pub put_back-Sound :
      {n next : ℕ} {stored : List (Pending R)} {batch : Batch R} {s : Side R}
      → Sound n next stored batch s
      → Sound n next stored
          (record { left = []; rejected = batch.rejected })
          (put_back batch.left s)
  unfolding put_back
  put_back-Sound {n} {next} {stored} {batch} {s} t = record {
    total = omega (arith, t.total, length-append batch.left s.pending);
    first = t.first;
    second = t.first;
    done = t.done;
    writing = omega arith;
    waiting = Within-append t.first t.second next batch.left s.pending t.writing t.waiting;
  }

  pub count_rejected-Sound :
      {n next : ℕ} {stored : List (Pending R)} {batch : Batch R} {s : Side R}
      → Sound n next stored batch s
      → Sound n next stored
          (record { left = batch.left; rejected = 0 })
          (count_rejected batch.rejected s)
  count_rejected-Sound t = record {
    total = omega (arith, t.total);
    first = t.first;
    second = t.second;
    done = t.done;
    writing = t.writing;
    waiting = t.waiting;
  }

  -- The buffer becomes the batch of a flush.
  pub take-Sound :
      {n next : ℕ} {stored : List (Pending R)} {s : Side R}
      → Sound n next stored (record { left = []; rejected = 0 }) s
      → Sound n next stored (record { left = s.pending; rejected = 0 }) (record s { pending = [] })
  take-Sound {n} {next} {stored} {s} t = record {
    total = omega (arith, t.total);
    first = t.first;
    second = next;
    done = t.done;
    writing = Within-weaken t.second t.first next next s.pending t.writing (omega arith) t.waiting;
    waiting = omega arith;
  }

  -- The whole batch is acknowledged.
  pub store-Sound :
      {n next : ℕ} {stored : List (Pending R)} {batch : Batch R} {s : Side R}
      → Sound n next stored batch s
      → Sound n next (stored ++ batch.left) (record { left = []; rejected = batch.rejected }) s
  store-Sound {n} {next} {stored} {batch} {s} t = record {
    total = omega (arith, t.total, length-append stored batch.left);
    first = t.second;
    second = t.second;
    done = Within-append 0 t.first t.second stored batch.left t.done t.writing;
    writing = omega arith;
    waiting = t.waiting;
  }

  -- Its first row is acknowledged, or rejected.
  pub store_row-Sound :
      {n next rejected : ℕ} {stored : List (Pending R)} {p : Pending R} {rest : List (Pending R)}
      {s : Side R}
      → Sound n next stored (record { left = p ∷ rest; rejected = rejected }) s
      → Sound n next (stored ++ p ∷ []) (record { left = rest; rejected = rejected }) s
  store_row-Sound {n} {next} {rejected} {stored} {p} {rest} {s} t = record {
    total = omega (arith, t.total, length-append stored (p ∷ []));
    first = p.0 + 1;
    second = t.second;
    done = Within-append 0 t.first (p.0 + 1) stored (p ∷ []) t.done (t.writing.0, omega arith);
    writing = t.writing.1;
    waiting = t.waiting;
  }

  pub reject_row-Sound :
      {n next rejected : ℕ} {stored : List (Pending R)} {p : Pending R} {rest : List (Pending R)}
      {s : Side R}
      → Sound n next stored (record { left = p ∷ rest; rejected = rejected }) s
      → Sound n next stored (record { left = rest; rejected = rejected + 1 }) s
  reject_row-Sound {n} {next} {rejected} {stored} {p} {rest} {s} t = record {
    total = omega (arith, t.total);
    first = t.first;
    second = t.second;
    done = t.done;
    writing =
        Within-weaken (p.0 + 1) t.first t.second t.second rest (omega (arith, t.writing.0))
          (omega arith) t.writing.1;
    waiting = t.waiting;
  }

  pub new_side :
      Sound 0 0 [] (record { left = []; rejected = 0 }) (record { pending = []; unpersisted = 0 })
  new_side = record {
    total = refl;
    first = 0;
    second = 0;
    done = omega arith;
    writing = omega arith;
    waiting = omega arith;
  }

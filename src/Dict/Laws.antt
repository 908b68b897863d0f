-- ===== src/Dict/Laws.antt =====
-- The laws of the dictionary operations: reading after a write, sizes, and distinct keys.
use sentinel_linux.Prelude.{
  suc, ◌-◌, ◌≡◌, refl, none, some, [], ◌∷◌, length, arith, if◌then◌else◌, inl, inr, Bool-cases,
  ◌||◌, Bool, true, false, Option, ◌≤◌, ap, ◌∙◌,
}
use sentinel_linux.Prelude.Eq.{KeyEq, ◌==◌}
use sentinel_linux.Dict.{Dict, get, has, set, remove, remove_oldest, IsFresh, Distinct}

module _ {K V : Type 0} ⦃e : KeyEq K⦄ where
  pub get-set :
      (k j : K) (v : V) (d : Dict K V) → get j (set k v d) ≡ (if k == j then some v else get j d)
  unfolding get set
  get-set k j v [] = ground arith
  get-set k j v ((i, w) ∷ d) =
      ground (arith, get-set k j v d, e.same_iff i k, e.same_iff i j, e.same_iff k j)

  pub has-set : (k j : K) (v : V) (d : Dict K V) → has j (set k v d) ≡ k == j || has j d
  unfolding has
  has-set k j v d =
      ap (λ (o : Option V). elim o as (λ x. Bool) [ none ↦ false | some w ↦ true ])
        (get-set k j v d)
      ∙ go (k == j)
    where
      go :
          (b : Bool)
          → (elim (if b then some v else get j d) as (λ x. Bool) [ none ↦ false | some w ↦ true ])
            ≡ b || has j d
      go true = refl
      go false = refl

  pub length-set :
      (k : K) (v : V) (d : Dict K V)
      → length (set k v d) ≡ (if has k d then length d else suc (length d))
  unfolding has get set
  length-set k v [] = refl
  length-set k v ((i, w) ∷ d) = ground (arith, length-set k v d)

  pub length-set-le : (k : K) (v : V) (d : Dict K V) → length (set k v d) ≤ suc (length d)
  length-set-le k v d = ground (arith, length-set k v d)

  pub length-set_absent :
      (k : K) (v : V) (d : Dict K V) → get k d ≡ none → length (set k v d) ≡ suc (length d)
  unfolding has
  length-set_absent k v d h = rw (length-set, has, h)

  pub absent-IsFresh : (k : K) (d : Dict K V) → get k d ≡ none → IsFresh k d
  unfolding get
  absent-IsFresh k [] h = tt
  absent-IsFresh k ((j, v) ∷ d) h =
      (λ p. ground (arith, e.same_iff j k), absent-IsFresh k d (ground arith))

  pub get-eq-none : (k : K) (d : Dict K V) → IsFresh k d → get k d ≡ none
  unfolding get
  get-eq-none k [] h = refl
  get-eq-none k ((j, v) ∷ d) h = ground (arith, e.same_iff j k, get-eq-none k d h.1)

  IsFresh-set : (i k : K) (v : V) (d : Dict K V) → (k ≡ i → ⊥) → IsFresh i d → IsFresh i (set k v d)
  unfolding set
  IsFresh-set i k v [] ne h = (ne, tt)
  IsFresh-set i k v ((j, w) ∷ d) ne h = elim (Bool-cases (j == k)) [
    | inl same ↦ rw same h
    | inr other ↦ rw other (h.0, IsFresh-set i k v d ne h.1)
  ]

  pub Distinct-set : (k : K) (v : V) (d : Dict K V) → Distinct d → Distinct (set k v d)
  unfolding set
  Distinct-set k v [] h = (tt, tt)
  Distinct-set k v ((j, w) ∷ d) h = elim (Bool-cases (j == k)) [
    | inl same ↦ rw same h
    | inr other ↦
        rw other
          (IsFresh-set j k v d (λ p. ground (arith, e.same_iff j k)) h.0, Distinct-set k v d h.1)
  ]

  IsFresh-remove : (i k : K) (d : Dict K V) → IsFresh i d → IsFresh i (remove k d)
  unfolding remove
  IsFresh-remove i k [] h = tt
  IsFresh-remove i k ((j, w) ∷ d) h = elim (Bool-cases (j == k)) [
    | inl same ↦ rw same h.1
    | inr other ↦ rw other (h.0, IsFresh-remove i k d h.1)
  ]

  pub Distinct-remove : (k : K) (d : Dict K V) → Distinct d → Distinct (remove k d)
  unfolding remove
  Distinct-remove k [] h = tt
  Distinct-remove k ((j, w) ∷ d) h = elim (Bool-cases (j == k)) [
    | inl same ↦ rw same h.1
    | inr other ↦ rw other (IsFresh-remove j k d h.0, Distinct-remove k d h.1)
  ]

  pub get-remove :
      (k j : K) (d : Dict K V)
      → Distinct d
      → get j (remove k d) ≡ (if k == j then none else get j d)
  unfolding get remove
  get-remove k j [] h = ground arith
  get-remove k j ((i, w) ∷ d) h = ground (
    arith,
    get-remove k j d h.1,
    get-eq-none i d h.0,
    e.same_iff i k,
    e.same_iff i j,
    e.same_iff k j,
  )

pub Distinct-remove_oldest : {K V : Type 0} (d : Dict K V) → Distinct d → Distinct (remove_oldest d)
unfolding remove_oldest
Distinct-remove_oldest [] h = h
Distinct-remove_oldest (kv ∷ d) h = h.1

pub length-remove_oldest : {K V : Type 0} (d : Dict K V) → length (remove_oldest d) ≡ length d - 1
unfolding remove_oldest
length-remove_oldest [] = omega arith
length-remove_oldest (kv ∷ d) = omega arith

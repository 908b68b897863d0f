-- ===== src/Dict.antt =====
-- Python's `dict`, which keeps its keys in the order of their first insertion: a list of pairs,
-- oldest first. Deleting and inserting a key again moves it to the end.
pub mod Laws
use sentinel_linux.Prelude.{
  ℕ, ◌≡◌, Bool, true, false, Option, none, some, List, [], ◌∷◌, length, if◌then◌else◌,
}
use sentinel_linux.Prelude.Eq.{KeyEq, ◌==◌}

abbrev pub Dict : Type 0 → Type 0 → Type 0
Dict K V = List (K × V)

module _ {K V : Type 0} ⦃e : KeyEq K⦄ where
  -- `d.get(k)`
  unfoldable pub get : K → Dict K V → Option V
  get k [] = none
  get k ((j, v) ∷ d) = let rest = get k d in if j == k then some v else rest

  -- `k in d`
  unfoldable pub has : K → Dict K V → Bool
  unfolding get
  has k d = elim (get k d) [ none ↦ false | some _ ↦ true ]

  -- `d[k] = v`: in place if the key is there, else at the end.
  unfoldable pub set : K → V → Dict K V → Dict K V
  set k v [] = (k, v) ∷ []
  set k v ((j, w) ∷ d) = let rest = set k v d in if j == k then (j, v) ∷ d else (j, w) ∷ rest

  -- `d.pop(k, None)`, and `del d[k]` where the key is known to be there.
  unfoldable pub remove : K → Dict K V → Dict K V
  remove k [] = []
  remove k ((j, v) ∷ d) = let rest = remove k d in if j == k then d else (j, v) ∷ rest

-- `next(iter(d))` and `del` of that key: the oldest entry goes.
unfoldable pub remove_oldest : {K V : Type 0} → Dict K V → Dict K V
remove_oldest [] = []
remove_oldest (kv ∷ d) = d

-- No key twice.
abbrev pub IsFresh : {K V : Type 0} → K → Dict K V → Type 0
IsFresh k [] = Unit
IsFresh k ((j, v) ∷ d) = (j ≡ k → ⊥) × IsFresh k d

abbrev pub Distinct : {K V : Type 0} → Dict K V → Type 0
Distinct [] = Unit
Distinct ((j, v) ∷ d) = IsFresh j d × Distinct d

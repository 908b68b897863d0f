-- ===== src/Collectors/Snapshot.antt =====
-- What the snapshot collectors of src/sentinel/collectors/ (process.py, network.py, integrity.py)
-- have in common: two loops over dictionaries, one over the new snapshot, one over the old.
pub mod Replay
use sentinel_linux.Prelude.{
  Bool, true, false, Option, none, some, List, [], ◌∷◌, ◌++◌, if◌then◌else◌,
}
use sentinel_linux.Prelude.Eq.{KeyEq}
use sentinel_linux.Dict.{Dict, get, has}

module _ {K V C : Type 0} ⦃e : KeyEq K⦄ where
  -- `for k, v in new.items()`, with what the old snapshot says of k.
  unfoldable pub seen_now : (K → Option V → V → List C) → Dict K V → Dict K V → List C
  unfolding get
  seen_now changes old [] = []
  seen_now changes old ((k, v) ∷ new) = changes k (get k old) v ++ seen_now changes old new

  -- `for k, v in old.items()`, if k is not in the new snapshot.
  unfoldable pub no_longer : (K → V → C) → Dict K V → Dict K V → List C
  unfolding has
  no_longer gone new [] = []
  no_longer gone new ((k, v) ∷ old) =
      let rest = no_longer gone new old in if has k new then rest else gone k v ∷ rest

-- A property of every entry.
abbrev pub Entries : {K V : Type 0} → (K → V → Type 0) → Dict K V → Type 0
Entries P [] = Unit
Entries P ((k, v) ∷ d) = P k v × Entries P d

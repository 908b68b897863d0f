-- ===== src/Collectors/Snapshot/Replay.antt =====
-- The changes between two snapshots, played in order on a table of what the observer knows of each
-- key, turn the table of the old snapshot into that of the new one.
use sentinel_linux.Prelude.{
  ◌≡◌, refl, sym, ap, ◌∙◌, true, false, Option, none, some, List, [], ◌∷◌, ◌++◌, if◌then◌else◌, All,
  inl, inr, Bool-cases, some_injective,
}
use mathlib.Core.Path.{subst}
use mathlib.Core.Option
use sentinel_linux.Prelude.Eq.{KeyEq, ◌==◌}
use sentinel_linux.Dict.{Dict, get, has, set, IsFresh, Distinct}
use sentinel_linux.Dict.Laws.{get-eq-none}
use sentinel_linux.Collectors.Snapshot.{seen_now, no_longer, Entries}

differ : {K : Type 0} (e : KeyEq K) (j k : K) → (j ≡ k → ⊥) → e.same j k ≡ false
differ e j k ne = elim (Bool-cases (e.same j k)) [
  | inl same ↦ absurd (ne ((e.same_iff j k).0 same))
  | inr other ↦ other
]

module _ {K V : Type 0} ⦃e : KeyEq K⦄ (P : K → V → Type 0) where
  pub Entries-get : (k : K) (v : V) (d : Dict K V) → Entries P d → get k d ≡ some v → P k v
  unfolding get
  Entries-get k v [] h g = cc
  Entries-get k v ((j, w) ∷ d) h g = elim (Bool-cases (j == k)) [
    | inl same ↦
        subst (λ x. P x v) ((e.same_iff j k).0 same)
          (subst (P j) (some_injective (rw same at g)) h.0)
    | inr other ↦ Entries-get k v d h.1 (rw other at g)
  ]

  pub Entries-set : (k : K) (v : V) (d : Dict K V) → P k v → Entries P d → Entries P (set k v d)
  unfolding set
  Entries-set k v [] p h = (p, tt)
  Entries-set k v ((j, w) ∷ d) p h = elim (Bool-cases (j == k)) [
    | inl same ↦ rw same (subst (λ x. P x v) (sym ((e.same_iff j k).0 same)) p, h.1)
    | inr other ↦ rw other (h.0, Entries-set k v d p h.1)
  ]

module _ {K C W : Type 0} ⦃e : KeyEq K⦄ (key : C → K) (play : C → Option W → Option W) where
  -- What a list of changes does to the entry of one key.
  abbrev pub played : K → List C → Option W → Option W
  played k [] o = o
  played k (c ∷ cs) o = played k cs (if key c == k then play c o else o)

  pub played-append :
      (k : K) (xs ys : List C) (o : Option W) → played k (xs ++ ys) o ≡ played k ys (played k xs o)
  played-append k [] ys o = refl
  played-append k (x ∷ xs) ys o = played-append k xs ys (if key x == k then play x o else o)

  pub played_elsewhere :
      (j k : K) (xs : List C) (o : Option W)
      → All (λ c. key c ≡ j) xs
      → j == k ≡ false
      → played k xs o ≡ o
  played_elsewhere j k [] o h ne = refl
  played_elsewhere j k (x ∷ xs) o h ne = rw (other (key x) h.0) (played_elsewhere j k xs o h.1 ne)
    where
      other : (i : K) → i ≡ j → i == k ≡ false
      other i p = rw p ne

-- The laws that relate a collector's changes to the table: each change is about its key, the changes
-- of a key that is there leave its view, and the change of a key that is gone leaves nothing.
pub record ChangeLaws {K V C W : Type 0} ⦃e : KeyEq K⦄ (P : K → V → Type 0) (view : V → W)
    (key : C → K) (play : C → Option W → Option W) (changes : K → Option V → V → List C)
    (gone : K → V → C) : Type 0 where
  pub first : (k : K) (v : V) → P k v → All (λ c. key c ≡ k) (changes k none v)
  pub again : (k : K) (u v : V) → P k u → P k v → All (λ c. key c ≡ k) (changes k (some u) v)
  pub opened : (k : K) (v : V) → P k v → played key play k (changes k none v) none ≡ some (view v)
  pub updated :
      (k : K) (u v : V)
      → P k u
      → P k v
      → played key play k (changes k (some u) v) (some (view u)) ≡ some (view v)
  pub left : (k : K) (v : V) → P k v → key (gone k v) ≡ k
  pub closed : (k : K) (v : V) → P k v → play (gone k v) (some (view v)) ≡ none

abbrev pub table : {K V W : Type 0} ⦃e : KeyEq K⦄ → (V → W) → Dict K V → K → Option W
table view d k = Option.map view (get k d)

module _ {K V C W : Type 0} ⦃e : KeyEq K⦄ (P : K → V → Type 0) (view : V → W) (key : C → K)
    (play : C → Option W → Option W) (changes : K → Option V → V → List C) (gone : K → V → C)
    (laws : ChangeLaws P view key play changes gone) where
  changes_here :
      (k : K) (v : V) (old : Dict K V)
      → P k v
      → Entries P old
      → All (λ c. key c ≡ k) (changes k (get k old) v)
  changes_here k v old p h = go (get k old) refl
    where
      go : (o : Option V) → get k old ≡ o → All (λ c. key c ≡ k) (changes k o v)
      go none g = laws.first k v p
      go (some u) g = laws.again k u v (Entries-get P k u old h g) p

  changes-view :
      (k : K) (v : V) (old : Dict K V)
      → P k v
      → Entries P old
      → played key play k (changes k (get k old) v) (table view old k) ≡ some (view v)
  changes-view k v old p h = go (get k old) refl
    where
      go :
          (o : Option V)
          → get k old ≡ o
          → played key play k (changes k o v) (Option.map view o) ≡ some (view v)
      go none g = laws.opened k v p
      go (some u) g = laws.updated k u v (Entries-get P k u old h g) p

  fresh_unplayed :
      (k : K) (old new : Dict K V) (o : Option W)
      → Entries P old
      → Entries P new
      → IsFresh k new
      → played key play k (seen_now changes old new) o ≡ o
  unfolding seen_now
  fresh_unplayed k old [] o ho hn f = refl
  fresh_unplayed k old ((j, v) ∷ new) o ho hn f =
      rw
        (
          played-append key play k (changes j (get j old) v) (seen_now changes old new) o,
          played_elsewhere key play j k (changes j (get j old) v) o (changes_here j v old hn.0 ho)
              (differ e j k f.0),
        )
        (fresh_unplayed k old new o ho hn.1 f.1)

  played-head :
      (j : K) (v : V) (old new : Dict K V) (o : Option W)
      → Entries P old
      → P j v
      → Entries P new
      → IsFresh j new
      → o ≡ table view old j
      → played key play j (changes j (get j old) v ++ seen_now changes old new) o ≡ some (view v)
  played-head j v old new o ho p hn f same =
      played-append key play j (changes j (get j old) v) (seen_now changes old new) o
      ∙ fresh_unplayed j old new (played key play j (changes j (get j old) v) o) ho hn f
      ∙ ap (played key play j (changes j (get j old) v)) same
      ∙ changes-view j v old p ho

  -- After the loop over the new snapshot, a key that is there has its new view, and any other key
  -- is as it was.
  abbrev latest : Option V → Option W → Option W
  latest none o = o
  latest (some v) o = some (view v)

  played-seen_now :
      (k : K) (old new : Dict K V) (o : Option W)
      → Entries P old
      → Entries P new
      → Distinct new
      → o ≡ table view old k
      → played key play k (seen_now changes old new) o ≡ latest (get k new) o
  unfolding seen_now get
  played-seen_now k old [] o ho hn dn same = refl
  played-seen_now k old ((j, v) ∷ new) o ho hn dn same = elim (Bool-cases (j == k)) [
    | inl here ↦ rw here (
        subst
          (λ i.
            o ≡ table view old i
            → played key play i (changes j (get j old) v ++ seen_now changes old new) o
              ≡ some (view v))
          ((e.same_iff j k).0 here) (played-head j v old new o ho hn.0 hn.1 dn.0) same)
    | inr other ↦ rw other (
        played-append key play k (changes j (get j old) v) (seen_now changes old new) o
        ∙ ap (played key play k (seen_now changes old new)) (
            played_elsewhere key play j k (changes j (get j old) v) o (changes_here j v old hn.0 ho)
              other)
        ∙ played-seen_now k old new o ho hn.1 dn.1 same)
  ]

  played-gone :
      (j k : K) (v : V) (cs : List C) (o : Option W)
      → P j v
      → played key play k (gone j v ∷ cs) o
        ≡ played key play k cs (if j == k then play (gone j v) o else o)
  played-gone j k v cs o p = rw (laws.left j v p) refl

  split_has : (j k : K) (new : Dict K V) → has k new ≡ true → has j new ≡ false → e.same j k ≡ false
  split_has j k new hk hj = differ e j k (λ p. let h = subst (λ i. has i new ≡ false) p hj in cc)

  played-no_longer-has :
      (k : K) (new old : Dict K V) (o : Option W)
      → Entries P old
      → has k new ≡ true
      → played key play k (no_longer gone new old) o ≡ o
  unfolding no_longer
  played-no_longer-has k new [] o ho h = refl
  played-no_longer-has k new ((j, v) ∷ old) o ho h = elim (Bool-cases (has j new)) [
    | inl kept ↦ rw kept (played-no_longer-has k new old o ho.1 h)
    | inr lost ↦ rw lost (
        played-gone j k v (no_longer gone new old) o ho.0
        ∙ rw (split_has j k new h lost) (played-no_longer-has k new old o ho.1 h))
  ]

  closed_here :
      (j k : K) (v : V) (old : Dict K V) (o : Option W)
      → P j v
      → IsFresh j old
      → j ≡ k
      → o ≡ some (view v)
      → play (gone j v) o ≡ table view old k
  closed_here j k v old o p f here same =
      ap (play (gone j v)) same
      ∙ laws.closed j v p
      ∙ sym (ap (Option.map view) (get-eq-none k old (subst (λ i. IsFresh i old) here f)))

  played-no_longer :
      (k : K) (new old : Dict K V) (o : Option W)
      → Entries P old
      → Distinct old
      → has k new ≡ false
      → o ≡ table view old k
      → played key play k (no_longer gone new old) o ≡ none
  unfolding no_longer get
  played-no_longer k new [] o ho d h same = same
  played-no_longer k new ((j, v) ∷ old) o ho d h same = elim (Bool-cases (j == k)) [
    | inl here ↦
        let p = (e.same_iff j k).0 here in
        rw (subst (λ i. has i new ≡ false) (sym p) h) (
          played-gone j k v (no_longer gone new old) o ho.0
          ∙ rw here (
              played-no_longer k new old (play (gone j v) o) ho.1 d.1 h
                (closed_here j k v old o ho.0 d.0 p (rw here at same))))
    | inr other ↦ elim (Bool-cases (has j new)) [
      | inl kept ↦ rw kept (played-no_longer k new old o ho.1 d.1 h (rw other at same))
      | inr lost ↦ rw lost (
          played-gone j k v (no_longer gone new old) o ho.0
          ∙ rw other (played-no_longer k new old o ho.1 d.1 h (rw other at same)))
    ]
  ]

  -- The changes turn the old table into the new one.
  pub played-diff :
      (k : K) (old new : Dict K V)
      → Entries P old
      → Entries P new
      → Distinct old
      → Distinct new
      → played key play k (seen_now changes old new ++ no_longer gone new old) (table view old k)
        ≡ table view new k
  unfolding has
  played-diff k old new ho hn do_ dn =
      played-append key play k (seen_now changes old new) (no_longer gone new old)
        (table view old k)
      ∙ ap (played key play k (no_longer gone new old))
          (played-seen_now k old new (table view old k) ho hn dn refl)
      ∙ go (get k new) refl
    where
      go :
          (o : Option V)
          → get k new ≡ o
          → played key play k (no_longer gone new old) (latest o (table view old k))
            ≡ Option.map view o
      go none g = played-no_longer k new old (table view old k) ho do_ (rw (has, g) refl) refl
      go (some v) g = played-no_longer-has k new old (some (view v)) ho (rw (has, g) refl)

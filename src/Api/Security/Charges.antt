-- ===== src/Api/Security/Charges.antt =====
-- What one request does to the stamps of a client in the rate limit of src/sentinel/api/security.py.
use text.Mathlib.Text.{◌==◌ as str_eq}
use text.Mathlib.TextEquality.{eq_iff}
use mathlib.Core.Path.{subst}
use sentinel_linux.Prelude.{
  ℕ, ◌+◌, ◌≤◌, ◌<◌, ◌≡◌, refl, sym, ap, ◌∙◌, Bool, true, false, Option, none, some, List, [],
  length, any, ◌&&◌, ◌⊎◌, inl, inr, Bool-cases, Option-cases, if◌then◌else◌, arith, String, not,
}
use sentinel_linux.Prelude.Eq.{text_key, ◌==◌}
use sentinel_linux.Dict
use sentinel_linux.Dict.{Dict, remove_oldest}
use sentinel_linux.Dict.Laws.{get-set}
use sentinel_linux.SlidingWindow.Limiter.{admit}
use sentinel_linux.Api.Security.{
  Request, RateLimit, Limited, through, too_many, dispatch, charge, client_window, bucket_of,
  max_tracked_clients, retry_after,
}
use sentinel_linux.Api.Security.Tracked.{
  found-client_window, absent-client_window, room_for, client_window-room, dispatch-charge,
  length-client_window, length-set_present,
}

-- The stamps of a bucket.
abbrev pub or_empty : Option (List ℕ) → List ℕ
or_empty none = []
or_empty (some window) = window

abbrev pub is_through : Limited → Bool
is_through through = true
is_through (too_many after) = false

-- A request of the bucket that was charged, and let through.
abbrev pub counts_for : String → RateLimit → Request → Limited → Bool
counts_for client r request outcome =
    not (any (str_eq request.path) r.exempt)
    && ((bucket_of r request == client) && is_through outcome)

abbrev pub Feeds : String → ℕ → RateLimit → Request → RateLimit × Limited → Type 0
Feeds client now r request (r', outcome) =
    ((or_empty (Dict.get client r'.hits) ≡ or_empty (Dict.get client r.hits))
      × (counts_for client r request outcome ≡ false))
    ⊎ ((or_empty (Dict.get client r'.hits)
          ≡ (admit r.window r.limit now (or_empty (Dict.get client r.hits))).0)
        × (counts_for client r request outcome
            ≡ (admit r.window r.limit now (or_empty (Dict.get client r.hits))).1))

module _ (client : String) where
  -- With room for one more client no other client's window changes.
  others-client_window :
      (own : String) (hits : Dict String (List ℕ))
      → length hits < max_tracked_clients
      → (own == client) ≡ false
      → or_empty (Dict.get client (client_window own hits).1) ≡ or_empty (Dict.get client hits)
  unfolding room_for
  others-client_window own hits room other = elim (Option-cases (Dict.get own hits)) [
    | inr (existing, found) ↦ rw (found-client_window own hits existing found) refl
    | inl absent ↦
        rw (absent-client_window own hits absent, get-set, other)
          (ap (λ d. or_empty (Dict.get client d)) (kept hits room))
  ]
    where
      kept :
          (hits : Dict String (List ℕ))
          → length hits < max_tracked_clients
          → room_for own hits ≡ hits
      kept hits room = ground arith

  own-client_window :
      (hits : Dict String (List ℕ))
      → (client_window client hits).0 ≡ or_empty (Dict.get client hits)
  own-client_window hits = elim (Option-cases (Dict.get client hits)) [
    | inr (existing, found) ↦ rw (found-client_window client hits existing found, found) refl
    | inl absent ↦ rw (absent-client_window client hits absent, absent) refl
  ]

  charge-Feeds :
      (now : ℕ) (request : Request) (r : RateLimit)
      → length r.hits < max_tracked_clients
      → any (str_eq request.path) r.exempt ≡ false
      → Feeds client now r request
          (charge now (bucket_of r request) r (client_window (bucket_of r request) r.hits))
  charge-Feeds now request r room limited =
      let own = bucket_of r request in
      let opened = client_window own r.hits in
      elim (Bool-cases (own == client)) [
        | inl same ↦
            let window : opened.0 ≡ or_empty (Dict.get client r.hits) =
              ap (λ c. (client_window c r.hits).0) ((eq_iff own client).0 same)
              ∙ own-client_window r.hits in
            inr (
              rw (get-set, same) (ap (λ w. (admit r.window r.limit now w).0) window),
              rw (limited, same)
                  (answered (admit r.window r.limit now opened.0).1 (retry_after r.window)
                    ∙ ap (λ w. (admit r.window r.limit now w).1) window),
            )
        | inr other ↦ inl (
          rw (get-set, other) (others-client_window own r.hits room other),
          rw (limited, other) refl,
        )
      ]
    where
      answered : (ok : Bool) (after : ℕ) → is_through (if ok then through else too_many after) ≡ ok
      answered true after = refl
      answered false after = refl

  pub dispatch-Feeds :
      (now : ℕ) (request : Request) (r : RateLimit)
      → length r.hits < max_tracked_clients
      → Feeds client now r request (dispatch now request r)
  unfolding dispatch
  dispatch-Feeds now request r room = elim (Bool-cases (any (str_eq request.path) r.exempt)) [
    | inl free ↦ rw free (inl (refl, refl))
    | inr limited ↦
        subst (Feeds client now r request) (sym (dispatch-charge now request r limited))
          (charge-Feeds now request r room limited)
  ]

pub dispatch-settings :
    (now : ℕ) (request : Request) (r : RateLimit)
    → ((dispatch now request r).0.limit ≡ r.limit) × ((dispatch now request r).0.window ≡ r.window)
unfolding dispatch
dispatch-settings now request r = ground arith

-- One more client is tracked after a request, at most.
pub dispatch-grows :
    (now : ℕ) (request : Request) (r : RateLimit)
    → length r.hits < max_tracked_clients
    → length (dispatch now request r).0.hits ≤ length r.hits + 1
unfolding dispatch
dispatch-grows now request r room = elim (Bool-cases (any (str_eq request.path) r.exempt)) [
  | inl free ↦ rw free (omega arith)
  | inr limited ↦
      let own = bucket_of r request in
      let opened = client_window own r.hits in
      let present = client_window-room own r.hits (omega (arith, room)) in
      rw (dispatch-charge now request r limited) (
        omega (
          arith,
          length-client_window own r.hits,
          length-set_present own opened.0 (admit r.window r.limit now opened.0).0 opened.1
              present.0,
        ))
]

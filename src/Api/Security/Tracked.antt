-- ===== src/Api/Security/Tracked.antt =====
-- The clients that the rate limit of src/sentinel/api/security.py tracks, and what each gets through.
use text.Mathlib.Text.{◌==◌ as str_eq}
use text.Mathlib.TextEquality.{eq_iff}
use sentinel_linux.Prelude.{
  ℕ, ◌+◌, ◌≤◌, ◌<◌, ◌≡◌, refl, true, false, none, some, List, [], length, leb, any, inl, inr,
  Bool-cases, Option-cases, if◌then◌else◌, arith, String,
}
use sentinel_linux.Prelude.Eq.{text_key, ◌==◌}
use sentinel_linux.Dict
use sentinel_linux.Dict.{Dict, remove_oldest}
use sentinel_linux.Dict.Laws.{get-set, length-set, length-remove_oldest}
use sentinel_linux.SlidingWindow.Limiter.{admit}
use sentinel_linux.Api.Security.{
  Request, RateLimit, dispatch, charge, client_window, bucket_of, max_tracked_clients,
}

module _ (client : String) (hits : Dict String (List ℕ)) where
  unfoldable pub room_for : Dict String (List ℕ)
  room_for = if leb max_tracked_clients (length hits) then remove_oldest hits else hits

  pub found-client_window :
      (existing : List ℕ)
      → Dict.get client hits ≡ some existing
      → client_window client hits ≡ (existing, hits)
  unfolding client_window
  found-client_window existing found = rw (client_window, found) refl

  pub absent-client_window :
      Dict.get client hits ≡ none → client_window client hits ≡ ([], Dict.set client [] room_for)
  unfolding client_window room_for
  absent-client_window absent = rw (client_window, absent) refl

  pub length-room_for : length hits ≤ max_tracked_clients → length room_for < max_tracked_clients
  unfolding room_for
  length-room_for le = ground (arith, length-remove_oldest hits)

pub same_client : (client : String) → (client == client) ≡ true
same_client client = (eq_iff client client).1 refl

pub get-set_self :
    (client : String) (window : List ℕ) (hits : Dict String (List ℕ))
    → Dict.get client (Dict.set client window hits) ≡ some window
get-set_self client window hits = rw (get-set, same_client client) refl

length-set_le :
    (client : String) (window : List ℕ) (hits : Dict String (List ℕ))
    → length (Dict.set client window hits) ≤ length hits + 1
length-set_le client window hits = rw length-set (ground arith)

pub length-set_present :
    (client : String) (old window : List ℕ) (hits : Dict String (List ℕ))
    → Dict.get client hits ≡ some old
    → length (Dict.set client window hits) ≡ length hits
unfolding Dict.has
length-set_present client old window hits h = rw (length-set, Dict.has, h) refl

-- The client's entry is in the dictionary that `client_window` returns, which is within the bound.
pub client_window-room :
    (client : String) (hits : Dict String (List ℕ))
    → length hits ≤ max_tracked_clients
    → (Dict.get client (client_window client hits).1 ≡ some (client_window client hits).0)
      × (length (client_window client hits).1 ≤ max_tracked_clients)
client_window-room client hits le = elim (Option-cases (Dict.get client hits)) [
  | inr (existing, found) ↦ rw (found-client_window client hits existing found) (found, le)
  | inl absent ↦ rw (absent-client_window client hits absent) (
    get-set_self client [] (room_for client hits),
    omega (arith, length-set_le client [] (room_for client hits), length-room_for client hits le),
  )
]

-- It holds one client more than before, at most.
pub length-client_window :
    (client : String) (hits : Dict String (List ℕ))
    → length (client_window client hits).1 ≤ length hits + 1
unfolding room_for
length-client_window client hits = elim (Option-cases (Dict.get client hits)) [
  | inr (existing, found) ↦ rw (found-client_window client hits existing found) (omega arith)
  | inl absent ↦
      rw (absent-client_window client hits absent)
        (ground (arith, length-set_le client [] (room_for client hits), length-remove_oldest hits))
]

pub dispatch-charge :
    (now : ℕ) (request : Request) (r : RateLimit)
    → any (str_eq request.path) r.exempt ≡ false
    → dispatch now request r
      ≡ charge now (bucket_of r request) r (client_window (bucket_of r request) r.hits)
unfolding dispatch
dispatch-charge now request r limited = rw limited refl

-- However many clients come and go, the rate limit tracks at most `max_tracked_clients` of them.
pub dispatch_bounded :
    (now : ℕ) (request : Request) (r : RateLimit)
    → length r.hits ≤ max_tracked_clients
    → length (dispatch now request r).0.hits ≤ max_tracked_clients
unfolding dispatch
dispatch_bounded now request r le = elim (Bool-cases (any (str_eq request.path) r.exempt)) [
  | inl free ↦ rw free le
  | inr limited ↦
      let client = bucket_of r request in
      let opened = client_window client r.hits in
      let room = client_window-room client r.hits le in
      rw (dispatch-charge now request r limited) (
        omega (
          arith,
          room.1,
          length-set_present client opened.0 (admit r.window r.limit now opened.0).0 opened.1
              room.0,
        ))
]

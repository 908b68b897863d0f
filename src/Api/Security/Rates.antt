-- ===== src/Api/Security/Rates.antt =====
-- How many requests of a client the rate limit of src/sentinel/api/security.py lets through.
use sentinel_linux.Prelude.{ℕ, ◌≡◌, List, [], ◌∷◌, if◌then◌else◌, String}
use sentinel_linux.Prelude.Eq.{text_key}
use sentinel_linux.Dict
use sentinel_linux.Dict.{Dict, remove_oldest}
use sentinel_linux.SlidingWindow.Limiter.{Budget, Tracks}
use sentinel_linux.Api.Security.{Request, RateLimit, dispatch}
use sentinel_linux.Api.Security.Charges.{or_empty, counts_for}

-- The requests one after the other, each with the clock; and when those of a bucket were let
-- through.
unfoldable pub passed_at : String → List (ℕ × Request) → RateLimit → List ℕ
passed_at client [] r = []
passed_at client ((now, request) ∷ requests) r =
    let one = dispatch now request r in
    let rest = passed_at client requests one.0 in
    if counts_for client r request one.1 then now ∷ rest else rest

abbrev pub times : List (ℕ × Request) → List ℕ
times [] = []
times ((now, _) ∷ requests) = now ∷ times requests

module _ (client : String) where
  -- A budget that follows the client's stamps: their span and limit, and those let through.
  record Follows (limit span last : ℕ) (r : RateLimit) (b : Budget) : Type 0 where
    pub limited : r.limit ≡ limit
    pub spanned : r.window ≡ span
    pub stamps : or_empty (Dict.get client r.hits) ≡ b.window
    pub tracks : Tracks span limit last b

-- ===== src/Api/Security.antt =====
-- The authentication and the rate limit of src/sentinel/api/security.py. A request is what these
-- functions read of it; an answer is the status with which the request ends there, or its passage to
-- the next handler. Logging and the bodies of the error responses are left out.
pub mod Authorization
pub mod Tracked
pub mod Charges
pub mod Rates
use text.Mathlib.Text.{◌==◌ as str_eq}
use Prim.Native.Char.{Char, code}
use sentinel_linux.Prelude.{
  ℕ, ◌+◌, ◌/◌, Bool, true, false, Option, none, some, List, [], ◌∷◌, length, leb, eqb, not, any,
  ◌&&◌, ◌||◌, if◌then◌else◌, String,
}
use sentinel_linux.Prelude.Eq.{text_key}
use sentinel_linux.Prelude.Text.{text_append}
use sentinel_linux.Dict
use sentinel_linux.Dict.{Dict, remove_oldest}
use sentinel_linux.SlidingWindow.Limiter.{admit}

pub record Request : Type 0 where
  pub path : String
  pub client : Option String
  pub authorization : Option String

-- `header.partition(" ")`, its first and last part.
abbrev pub partition : String → String × String
partition String.[] = (String.[], String.[])
partition (String.◌∷◌ c s) =
    let (front, back) = partition s in
    if eqb (code c) 0x20 then (String.[], s) else (String.◌∷◌ c front, back)

-- `scheme.lower() == "bearer"`: the letters that lower to these six are they and their capitals.
abbrev letter : ℕ → Char → Bool
letter small c = eqb (code c) small || eqb (code c + 32) small

abbrev pub lowers_to : List ℕ → String → Bool
lowers_to [] String.[] = true
lowers_to (l ∷ ls) (String.◌∷◌ c s) = letter l c && lowers_to ls s
lowers_to [] (String.◌∷◌ c s) = false
lowers_to (l ∷ ls) String.[] = false

abbrev pub is_bearer : String → Bool
is_bearer = lowers_to (98 ∷ 101 ∷ 97 ∷ 114 ∷ 101 ∷ 114 ∷ [])

abbrev pub token_of : String × String → Option String
token_of (scheme, token) = if is_bearer scheme && not (str_eq token "") then some token else none

-- `headers.get("Authorization", "")`
abbrev pub header_text : Option String → String
header_text none = ""
header_text (some text) = text

-- `_bearer_token`
unfoldable pub bearer_token : Request → Option String
bearer_token request = token_of (partition (header_text request.authorization))

-- `_token_matches`
abbrev pub token_matches : String → String → Bool
token_matches token configured = str_eq token configured

pub data Authentication : Type 0 where
  passed unavailable missing_token invalid_token : Authentication

-- `require_api_key`: 503 without a configured key, 401 without the right token.
abbrev pub check_token : String → Option String → Authentication
check_token configured none = missing_token
check_token configured (some token) =
    if token_matches token configured then passed else invalid_token

abbrev pub check_key : Option String → Option String → Authentication
check_key none token = unavailable
check_key (some configured) token = check_token configured token

unfoldable pub require_api_key : Option String → Request → Authentication
unfolding bearer_token
require_api_key api_key request = check_key api_key (bearer_token request)

abbrev pub max_tracked_clients : ℕ
max_tracked_clients = 100000

-- `RateLimitMiddleware`; times are in microseconds.
pub record RateLimit : Type 0 where
  pub exempt : List String
  pub limit : ℕ
  pub window : ℕ
  pub api_key : Option String
  pub hits : Dict String (List ℕ)

pub data Limited : Type 0 where
  through : Limited
  too_many : ℕ → Limited

abbrev pub presents_key : Option String → Option String → Bool
presents_key (some token) (some configured) = token_matches token configured
presents_key none configured = false
presents_key (some token) none = false

abbrev pub client_of : Option String → String
client_of none = "unknown"
client_of (some host) = host

-- The bucket of a request: its address, apart for callers with the key.
unfoldable pub bucket_of : RateLimit → Request → String
unfolding bearer_token
bucket_of r request =
    text_append (if presents_key (bearer_token request) r.api_key then "key" else "anon")
      (text_append ":" (client_of request.client))

-- `_window_for`: a new client may cost the one tracked for longest.
unfoldable pub client_window : String → Dict String (List ℕ) → List ℕ × Dict String (List ℕ)
client_window client hits = elim (Dict.get client hits) [
  | some existing ↦ (existing, hits)
  | none ↦
      let room = if leb max_tracked_clients (length hits) then remove_oldest hits else hits in
      ([], Dict.set client [] room)
]

-- `int(self._window) or 1`
abbrev pub retry_after : ℕ → ℕ
retry_after window = let seconds = window / 1000000 in if eqb seconds 0 then 1 else seconds

-- The window of the client slides, in the dictionary that holds it.
abbrev pub charge : ℕ → String → RateLimit → List ℕ × Dict String (List ℕ) → RateLimit × Limited
charge now client r (window, hits) =
    let answer = admit r.window r.limit now window in
    (
      record r { hits = Dict.set client answer.0 hits },
      if answer.1 then through else too_many (retry_after r.window),
    )

-- `dispatch`, up to the next handler.
unfoldable pub dispatch : ℕ → Request → RateLimit → RateLimit × Limited
unfolding bucket_of client_window
dispatch now request r =
    if any (str_eq request.path) r.exempt
    then (r, through)
    else (let client = bucket_of r request in charge now client r (client_window client r.hits))

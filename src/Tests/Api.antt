-- ===== src/Tests/Api.antt =====
-- A concrete rate limit and requests, and the witnesses of the theorems on the API.
use text.Mathlib.Text.{◌==◌ as str_eq}
use sentinel_linux.Prelude.{◌≡◌, refl, true, false, some, [], ◌∷◌, String}
use sentinel_linux.Prelude.Text.{text_append}
use sentinel_linux.Prelude.Eq.{text_key}
use sentinel_linux.Dict
use sentinel_linux.SlidingWindow.{trim}
use sentinel_linux.SlidingWindow.Limiter.{admit}
use sentinel_linux.Api.Security.{
  Request, RateLimit, passed, too_many, require_api_key, header_text, is_bearer, dispatch,
}
use sentinel_linux.Api.Security.Authorization.{IsWord, authorized_iff}

abbrev alerts : Request
alerts = record { path = "/alerts"; client = some "10.0.0.9"; authorization = some "BEARER secret" }

abbrev rate_limit : RateLimit
rate_limit = record {
  exempt = "/healthz" ∷ [];
  limit = 1;
  window = 60000000;
  api_key = some "secret";
  hits = [];
}

authorized : require_api_key (some "secret") alerts ≡ passed
unfolding require_api_key
authorized = refl

authorized_iff_example :
    (require_api_key (some "secret") alerts ≡ passed
      → (scheme : String) × (token : String) × (some "secret" ≡ some token)
        × (header_text alerts.authorization ≡ text_append scheme (text_append " " token))
        × IsWord scheme
        × (is_bearer scheme ≡ true)
        × (str_eq token "" ≡ false))
    × ((scheme : String) × (token : String) × (some "secret" ≡ some token)
          × (header_text alerts.authorization ≡ text_append scheme (text_append " " token))
          × IsWord scheme
          × (is_bearer scheme ≡ true)
          × (str_eq token "" ≡ false)
        → require_api_key (some "secret") alerts ≡ passed)
authorized_iff_example = authorized_iff (some "secret") alerts

second_limited : (dispatch 20 alerts (dispatch 10 alerts rate_limit).0).1 ≡ too_many 60
unfolding dispatch admit trim Dict.get Dict.set
second_limited = refl

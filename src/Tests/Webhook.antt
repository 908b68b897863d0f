-- ===== src/Tests/Webhook.antt =====
-- A concrete webhook, and the witnesses of the theorems on its sink.
use sentinel_linux.Prelude.{
  ℕ, ◌≡◌, refl, true, false, Option, none, some, List, [], ◌∷◌, String, if◌then◌else◌, eqb, arith,
}
use text.Mathlib.Text.{◌==◌ as str_eq}
use sentinel_linux.Prelude.Text.{text_append, decimal}
use sentinel_linux.Alerting.Webhook.{
  Url, Kind, Address, Answer, no_response, status, Sent, delivered, rejected, gave_up, Post,
  WebhookSink, posted, blocked_destination, emit, post_with_retry, validate_destination, refused,
}
use sentinel_linux.Alerting.Webhook.Policy.{Pinned, emit-Pinned}
use sentinel_linux.Alerting.Webhook.Retries.{Explained, post_with_retry-Explained}

abbrev urlsplit : String → Url
urlsplit url = record {
  scheme = "https";
  hostname = some (if str_eq url "https://[::1]/x" then "::1" else "hooks.example");
  port = some none;
  netloc = "hooks.example";
}

abbrev with_netloc : String → String → String
with_netloc url netloc = text_append "https://" (text_append netloc "/x")

abbrev public_kind : Kind
public_kind = record { is_global = true; is_multicast = false }

abbrev loopback : Kind
loopback = record { is_global = false; is_multicast = false }

-- One public address, the loopback address, and an IPv6 address that maps it.
abbrev ip_address : String → Option Address
ip_address s =
    if str_eq s "93.184.216.34"
    then some (record { kind = public_kind; ipv4_mapped = none })
    else if str_eq s "::1"
    then some (record { kind = loopback; ipv4_mapped = none })
    else if str_eq s "::ffff:127.0.0.1"
    then some (record { kind = public_kind; ipv4_mapped = some loopback })
    else none

abbrev sink : WebhookSink
sink = record { url = "https://hooks.example/x"; allow_private = false; max_retries = 3 }

abbrev public_dns : String → ℕ → List String
public_dns host port = "93.184.216.34" ∷ []

abbrev rebound_dns : String → ℕ → List String
rebound_dns host port = "93.184.216.34" ∷ "::ffff:127.0.0.1" ∷ []

-- Overloaded at first, then accepted.
abbrev answers : ℕ → Answer
answers n = if eqb n 0 then status 503 else if eqb n 1 then no_response else status 204

abbrev post : Post
post = record { url = "https://93.184.216.34:443/x"; sni_hostname = some "hooks.example" }

abbrev third_time : Sent
third_time = record { delivery = delivered; posts = 3; waits = 1 ∷ 2 ∷ [] }

delivered_third :
    emit urlsplit with_netloc ip_address sink public_dns answers ≡ posted post third_time
unfolding emit decimal
delivered_third = refl

-- A name that also resolves to the loopback address is refused, with no POST.
rebinding_refused :
    emit urlsplit with_netloc ip_address sink rebound_dns answers ≡ blocked_destination
unfolding emit
rebinding_refused = refl

literal_refused : validate_destination urlsplit ip_address "https://[::1]/x" false ≡ refused
unfolding validate_destination
literal_refused = refl

redirect_rejected :
    post_with_retry (λ n. status 302) 3 ≡ record { delivery = rejected 302; posts = 1; waits = [] }
unfolding post_with_retry
redirect_rejected = refl

outage :
    post_with_retry (λ n. no_response) 3
    ≡ record { delivery = gave_up; posts = 3; waits = 1 ∷ 2 ∷ [] }
unfolding post_with_retry
outage = refl

emit-Pinned_example : Pinned urlsplit with_netloc ip_address public_dns sink post
emit-Pinned_example =
    emit-Pinned urlsplit with_netloc ip_address public_dns sink answers post third_time
      delivered_third

post_with_retry-Explained_example : Explained answers 3 0 (post_with_retry answers 3)
post_with_retry-Explained_example = post_with_retry-Explained answers 3 (omega arith)

-- ===== src/Alerting/Webhook.antt =====
-- src/sentinel/alerting/sinks/webhook.py: the check of a destination and the delivery of an alert to it.
-- What `urlsplit` and `ipaddress` make of a text, what a host name resolves to and what comes back of a
-- POST are parameters.
pub mod Policy
pub mod Retries
use text.Mathlib.Text.{◌==◌ as str_eq}
use sentinel_linux.Prelude.{
  ℕ, zero, suc, ◌+◌, ◌*◌, ◌^◌, max, Bool, true, false, ◌&&◌, ◌||◌, not, Option, none, some, List,
  [], ◌∷◌, if◌then◌else◌, String, eqb, leb, ltb,
}
use sentinel_linux.Prelude.Text.{text_append, text_contains, decimal}

-- What `urlsplit` finds. The port is `none` where reading it raises.
pub record Url : Type 0 where
  pub scheme : String
  pub hostname : Option String
  pub port : Option (Option ℕ)
  pub netloc : String

pub record Kind : Type 0 where
  pub is_global : Bool
  pub is_multicast : Bool

-- An address, and the IPv4 address that it maps, if it is such an IPv6 address.
pub record Address : Type 0 where
  pub kind : Kind
  pub ipv4_mapped : Option Kind

-- `Destination`
pub record Destination : Type 0 where
  pub host : String
  pub port : ℕ
  pub addresses : List String

-- A result, the DestinationBlockedError, or the ValueError of `ip_address`.
pub data Checked (A : Type 0) : Type 0 where
  checked : A → Checked A
  refused : Checked A
  invalid : Checked A

abbrev pub https_port : ℕ
https_port = 443

abbrev pub blocked_kind : Kind → Bool
blocked_kind k = not k.is_global || k.is_multicast

abbrev pub unmapped : Address → Kind
unmapped a = elim a.ipv4_mapped [ none ↦ a.kind | some k ↦ k ]

abbrev pub blocked : Option Address → Option Bool
blocked none = none
blocked (some a) = some (blocked_kind (unmapped a))

abbrev pub parsed : Option Address → Bool
parsed none = false
parsed (some a) = true

abbrev pub or_next : Option Bool → Option Bool → Option Bool
or_next none more = none
or_next (some true) more = some true
or_next (some false) more = more

-- `parts.port or _HTTPS_PORT`
abbrev pub with_port : String → Option (Option ℕ) → Checked (String × ℕ)
with_port host none = refused
with_port host (some none) = checked (host, https_port)
with_port host (some (some p)) = checked (host, if eqb p 0 then https_port else p)

abbrev pub with_host : Option String → Option (Option ℕ) → Checked (String × ℕ)
with_host none port = refused
with_host (some host) port = if str_eq host "" then refused else with_port host port

module _ (ip_address : String → Option Address) where
  -- `is_blocked_address`; `none` is the ValueError of a text that is no address.
  unfoldable pub is_blocked_address : String → Option Bool
  is_blocked_address address = blocked (ip_address address)

  abbrev pub is_ip_literal : String → Bool
  is_ip_literal host = parsed (ip_address host)

  -- `any(…)`, which ends at the first blocked address.
  unfoldable pub any_blocked : List String → Option Bool
  unfolding is_blocked_address
  any_blocked [] = some false
  any_blocked (a ∷ rest) = or_next (is_blocked_address a) (any_blocked rest)

  abbrev pub by_policy : Destination → Option Bool → Checked Destination
  by_policy d none = invalid
  by_policy d (some true) = refused
  by_policy d (some false) = checked d

  unfoldable pub with_addresses : Bool → String → ℕ → List String → Checked Destination
  unfolding any_blocked
  with_addresses allow_private host port [] = refused
  with_addresses allow_private host port (a ∷ rest) =
      by_policy (record { host = host; port = port; addresses = a ∷ rest })
        (if allow_private then some false else any_blocked (a ∷ rest))

module _ (urlsplit : String → Url) (ip_address : String → Option Address) where
  -- `_split`
  unfoldable pub split : String → Checked (String × ℕ)
  split url =
      let parts = urlsplit url in
      if str_eq parts.scheme "https" then with_host parts.hostname parts.port else refused

  unfoldable pub literal_allowed : Bool → Checked (String × ℕ) → Checked Unit
  unfolding is_blocked_address
  literal_allowed allow_private refused = refused
  literal_allowed allow_private invalid = invalid
  literal_allowed allow_private (checked (host, port)) =
      if not allow_private && is_ip_literal ip_address host
      then elim (is_blocked_address ip_address host) [
        | none ↦ invalid
        | some b ↦ if b then refused else checked tt
      ]
      else checked tt

  -- `validate_destination`
  unfoldable pub validate_destination : String → Bool → Checked Unit
  unfolding split literal_allowed
  validate_destination url allow_private = literal_allowed allow_private (split url)

  unfoldable pub resolve_host :
      Bool → (String → ℕ → List String) → Checked (String × ℕ) → Checked Destination
  unfolding with_addresses
  resolve_host allow_private resolver refused = refused
  resolve_host allow_private resolver invalid = invalid
  resolve_host allow_private resolver (checked (host, port)) =
      with_addresses ip_address allow_private host port
        (if is_ip_literal ip_address host then host ∷ [] else resolver host port)

  -- `resolve_destination`
  unfoldable pub resolve_destination :
      String → Bool → (String → ℕ → List String) → Checked Destination
  unfolding split resolve_host
  resolve_destination url allow_private resolver = resolve_host allow_private resolver (split url)

-- `_pinned_url` replaces the network location by this one: `geturl` of the rest is a parameter.
abbrev pub literal : String → String
literal address =
    if text_contains address ":" then text_append "[" (text_append address "]") else address

abbrev pub pinned_netloc : String → ℕ → String
pinned_netloc address port = text_append (literal address) (text_append ":" (decimal port))

-- An answer to a POST: a network error or a timeout, or a response.
pub data Answer : Type 0 where
  no_response : Answer
  status : ℕ → Answer

abbrev pub is_success : ℕ → Bool
is_success code = leb 200 code && ltb code 300

abbrev pub is_retryable_status : ℕ → Bool
is_retryable_status code =
    eqb code 429 || eqb code 500 || eqb code 502 || eqb code 503 || eqb code 504

pub data Delivery : Type 0 where
  delivered : Delivery
  rejected : ℕ → Delivery
  gave_up : Delivery

-- How it ended, how many POSTs were made, and the waits between them, in halves of a second.
pub record Sent : Type 0 where
  pub delivery : Delivery
  pub posts : ℕ
  pub waits : List ℕ

abbrev pub ended : Delivery → Sent
ended d = record { delivery = d; posts = 1; waits = [] }

abbrev pub waited : ℕ → Sent → Sent
waited wait s = record { delivery = s.delivery; posts = s.posts + 1; waits = wait ∷ s.waits }

abbrev pub by_answer : Answer → Sent → Sent
by_answer no_response more = more
by_answer (status code) more =
    if is_success code
    then ended delivered
    else if is_retryable_status code
    then more
    else ended (rejected code)

-- The attempts that are left, from attempt number `attempt` on; after the last one it does not wait.
unfoldable pub post_loop : (ℕ → Answer) → ℕ → ℕ → Sent
post_loop answers zero attempt = record { delivery = gave_up; posts = 0; waits = [] }
post_loop answers (suc zero) attempt = by_answer (answers attempt) (ended gave_up)
post_loop answers (suc (suc left)) attempt =
    by_answer (answers attempt) (waited (2 ^ attempt) (post_loop answers (suc left) (attempt + 1)))

-- `_post_with_retry`
unfoldable pub post_with_retry : (ℕ → Answer) → ℕ → Sent
unfolding post_loop
post_with_retry answers max_retries = post_loop answers max_retries 0

pub record WebhookSink : Type 0 where
  pub url : String
  pub allow_private : Bool
  pub max_retries : ℕ

-- `WebhookSink.__init__`: an empty secret is refused.
unfoldable pub new_sink : String → String → ℕ → Bool → Option WebhookSink
new_sink url secret max_retries allow_private =
    if str_eq secret ""
    then none
    else some (record { url = url; allow_private = allow_private; max_retries = max 1 max_retries })

-- The POST that is made, up to the body and its signature: its URL and the name that TLS verifies.
pub record Post : Type 0 where
  pub url : String
  pub sni_hostname : Option String

pub data Emission : Type 0 where
  posted : Post → Sent → Emission
  blocked_destination : Emission
  not_an_address : Emission

module _ (urlsplit : String → Url) (with_netloc : String → String → String)
    (ip_address : String → Option Address) where
  abbrev pub pin : String → ℕ → List String → String
  pin url port [] = url
  pin url port (a ∷ rest) = with_netloc url (pinned_netloc a port)

  unfoldable pub pinned_url : String → Destination → String
  pinned_url url d = pin url d.port d.addresses

  unfoldable pub post_to : WebhookSink → (ℕ → Answer) → Checked Destination → Emission
  unfolding pinned_url post_with_retry
  post_to sink answers refused = blocked_destination
  post_to sink answers invalid = not_an_address
  post_to sink answers (checked d) =
      posted
        (record {
          url = pinned_url sink.url d;
          sni_hostname = if is_ip_literal ip_address d.host then none else some d.host;
        })
        (post_with_retry answers sink.max_retries)

  -- `emit`
  unfoldable pub emit : WebhookSink → (String → ℕ → List String) → (ℕ → Answer) → Emission
  unfolding resolve_destination post_to
  emit sink resolver answers =
      post_to sink answers
        (resolve_destination urlsplit ip_address sink.url sink.allow_private resolver)

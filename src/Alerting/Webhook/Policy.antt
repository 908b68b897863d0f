-- ===== src/Alerting/Webhook/Policy.antt =====
-- To which addresses the webhook sink posts.
use mathlib.Core.Path.{subst}
use sentinel_linux.Prelude.{
  ℕ, ◌≡◌, refl, sym, ap, ◌∙◌, Bool, true, false, not, ◌||◌, Option, none, some, List, [], ◌∷◌, All,
  String, if◌then◌else◌, inl, inr, Bool-cases,
}
use text.Mathlib.Text.{◌==◌ as str_eq}
use text.Mathlib.TextEquality.{eq_iff}
use sentinel_linux.Alerting.Webhook.{
  Url, Address, Destination, Checked, checked, refused, invalid, unmapped, blocked, or_next,
  is_blocked_address, is_ip_literal, any_blocked, by_policy, with_addresses, split, resolve_host,
  resolve_destination, pinned_netloc, pinned_url, pin, Answer, Sent, WebhookSink, Post, posted,
  post_to, emit, with_host, with_port, post_with_retry,
}

module _ (ip_address : String → Option Address) where
  -- A globally routable address that is no multicast group, in its IPv4 form where it maps one.
  pub record Public (address : String) : Type 0 where
    pub parsed_as : Address
    pub parses : ip_address address ≡ some parsed_as
    pub is_global : (unmapped parsed_as).is_global ≡ true
    pub not_multicast : (unmapped parsed_as).is_multicast ≡ false

  Public-address :
      (address : String) (o : Option Address)
      → ip_address address ≡ o
      → blocked o ≡ some false
      → Public address
  Public-address address none e h = cc
  Public-address address (some a) e h =
      go (unmapped a).is_global (unmapped a).is_multicast refl refl h
    where
      go :
          (g m : Bool)
          → (unmapped a).is_global ≡ g
          → (unmapped a).is_multicast ≡ m
          → some (not g || m) ≡ some false
          → Public address
      go true false eg em k = record {
        parsed_as = a;
        parses = e;
        is_global = eg;
        not_multicast = em;
      }
      go true true eg em k = cc
      go false m eg em k = cc

  or_next-false :
      (b more : Option Bool) → or_next b more ≡ some false → (b ≡ some false) × (more ≡ some false)
  or_next-false none more h = cc
  or_next-false (some true) more h = cc
  or_next-false (some false) more h = (refl, h)

  any_blocked-Public :
      (addresses : List String)
      → any_blocked ip_address addresses ≡ some false
      → All Public addresses
  unfolding any_blocked is_blocked_address
  any_blocked-Public [] h = tt
  any_blocked-Public (a ∷ rest) h =
      let k = or_next-false (is_blocked_address ip_address a) (any_blocked ip_address rest) h in
      (Public-address a (ip_address a) refl k.0, any_blocked-Public rest k.1)

  -- Where a checked destination comes from.
  pub record Resolved (allow_private : Bool) (answers : List String) (d : Destination)
      : Type 0 where
    pub first : String
    pub rest : List String
    pub answered : answers ≡ first ∷ rest
    pub addresses : d.addresses ≡ first ∷ rest
    pub allowed : allow_private ≡ false → All Public (first ∷ rest)

  by_policy_checked :
      (d e : Destination) (o : Option Bool)
      → by_policy ip_address d o ≡ checked e
      → (o ≡ some false) × (d ≡ e)
  by_policy_checked d e none h = cc
  by_policy_checked d e (some true) h = cc
  by_policy_checked d e (some false) h = (refl, cc)

  allowed_addresses :
      (allow_private : Bool) (addresses : List String)
      → (if allow_private then some false else any_blocked ip_address addresses) ≡ some false
      → allow_private ≡ false
      → All Public addresses
  allowed_addresses true addresses h e = cc
  allowed_addresses false addresses h e = any_blocked-Public addresses h

  with_addresses-Resolved :
      (allow_private : Bool) (host : String) (port : ℕ) (addresses : List String) (d : Destination)
      → with_addresses ip_address allow_private host port addresses ≡ checked d
      → Resolved allow_private addresses d × (d.host ≡ host) × (d.port ≡ port)
  unfolding with_addresses
  with_addresses-Resolved allow_private host port [] d h =
      let no_address : refused ≡ checked d = h in cc
  with_addresses-Resolved allow_private host port (a ∷ rest) d h =
      let made : Destination = record { host = host; port = port; addresses = a ∷ rest } in
      let p =
        by_policy_checked made d
          (if allow_private then some false else any_blocked ip_address (a ∷ rest)) h in
      (
        record {
          first = a;
          rest = rest;
          answered = refl;
          addresses = ap (λ e. e.addresses) (sym p.1);
          allowed = allowed_addresses allow_private (a ∷ rest) p.0;
        },
        ap (λ e. e.host) (sym p.1),
        ap (λ e. e.port) (sym p.1),
      )

module _ (urlsplit : String → Url) (with_netloc : String → String → String)
    (ip_address : String → Option Address) (resolver : String → ℕ → List String) where
  -- What a POST of the sink goes to.
  pub record Pinned (sink : WebhookSink) (p : Post) : Type 0 where
    pub host : String
    pub port : ℕ
    pub https : (urlsplit sink.url).scheme ≡ "https"
    pub configured : (urlsplit sink.url).hostname ≡ some host
    pub destination : Destination
    pub resolved :
        Resolved ip_address sink.allow_private
          (if is_ip_literal ip_address host then host ∷ [] else resolver host port)
          destination
    pub goes_to : p.url ≡ with_netloc sink.url (pinned_netloc resolved.first port)
    pub verifies : p.sni_hostname ≡ (if is_ip_literal ip_address host then none else some host)

  checked_same : (x y : String × ℕ) → checked x ≡ checked y → y ≡ x
  checked_same x y h = cc

  with_port-host :
      (host : String) (port : Option (Option ℕ)) (r : String × ℕ)
      → with_port host port ≡ checked r
      → r.0 ≡ host
  with_port-host host none r h = let no_port : refused ≡ checked r = h in cc
  with_port-host host (some none) r h = ap (λ q. q.0) (checked_same (host, 443) r h)
  with_port-host host (some (some p)) r h = ap (λ q. q.0) (checked_same _ r h)

  with_host-host :
      (o : Option String) (port : Option (Option ℕ)) (r : String × ℕ)
      → with_host o port ≡ checked r
      → o ≡ some r.0
  with_host-host none port r h = let no_host : refused ≡ checked r = h in cc
  with_host-host (some host) port r h = elim (Bool-cases (str_eq host "")) [
    | inl empty ↦ let no_host : refused ≡ checked r = rw empty at h in cc
    | inr named ↦ ap some (sym (with_port-host host port r (rw named at h)))
  ]

  split-https :
      (url : String) (r : String × ℕ)
      → split urlsplit ip_address url ≡ checked r
      → ((urlsplit url).scheme ≡ "https") × ((urlsplit url).hostname ≡ some r.0)
  unfolding split
  split-https url r h = elim (Bool-cases (str_eq (urlsplit url).scheme "https")) [
    | inl https ↦ (
      (eq_iff (urlsplit url).scheme "https").0 https,
      with_host-host (urlsplit url).hostname (urlsplit url).port r (rw https at h),
    )
    | inr other ↦ let no_scheme : refused ≡ checked r = rw other at h in cc
  ]

  pinned_first :
      (url : String) (d : Destination) (a : String) (rest : List String)
      → d.addresses ≡ a ∷ rest
      → pinned_url urlsplit with_netloc ip_address url d ≡ with_netloc url (pinned_netloc a d.port)
  unfolding pinned_url
  pinned_first url d a rest h = ap (pin urlsplit with_netloc ip_address url d.port) h

  posted_same : (x y : Post) (s t : Sent) → posted x s ≡ posted y t → x ≡ y
  posted_same x y s t h = cc

  resolved-Pinned :
      (sink : WebhookSink) (c : Checked (String × ℕ)) (d : Destination)
      → split urlsplit ip_address sink.url ≡ c
      → resolve_host urlsplit ip_address sink.allow_private resolver c ≡ checked d
      → Pinned sink (record {
        url = pinned_url urlsplit with_netloc ip_address sink.url d;
        sni_hostname = if is_ip_literal ip_address d.host then none else some d.host;
      })
  unfolding resolve_host
  resolved-Pinned sink refused d e h = let no_destination : refused ≡ checked d = h in cc
  resolved-Pinned sink invalid d e h = let no_destination : invalid ≡ checked d = h in cc
  resolved-Pinned sink (checked (host, port)) d e h =
      let s = split-https sink.url (host, port) e in
      let w =
        with_addresses-Resolved ip_address sink.allow_private host port
          (if is_ip_literal ip_address host then host ∷ [] else resolver host port) d h in
      record {
        host = host;
        port = port;
        https = s.0;
        configured = s.1;
        destination = d;
        resolved = w.0;
        goes_to =
            pinned_first sink.url d w.0.first w.0.rest w.0.addresses
            ∙ ap (λ n. with_netloc sink.url (pinned_netloc w.0.first n)) w.2;
        verifies = rw w.1 refl;
      }

  -- A POST is made only to an https URL, at the first of the addresses that its host name resolves to
  -- in that delivery, with the name that is configured for TLS to verify; unless private destinations
  -- are allowed, every one of these addresses is globally routable and no multicast group, also in
  -- the IPv4 form that an IPv6 address maps.
  pub emit-Pinned :
      (sink : WebhookSink) (answers : ℕ → Answer) (p : Post) (s : Sent)
      → emit urlsplit with_netloc ip_address sink resolver answers ≡ posted p s
      → Pinned sink p
  unfolding emit resolve_destination post_to
  emit-Pinned sink answers p s h =
      go
        (resolve_host urlsplit ip_address sink.allow_private resolver
          (split urlsplit ip_address sink.url))
        refl h
    where
      go :
          (c : Checked Destination)
          → resolve_host urlsplit ip_address sink.allow_private resolver
              (split urlsplit ip_address sink.url)
            ≡ c
          → post_to urlsplit with_netloc ip_address sink answers c ≡ posted p s
          → Pinned sink p
      go refused e k = cc
      go invalid e k = cc
      go (checked d) e k =
          subst (Pinned sink) (posted_same _ p (post_with_retry answers sink.max_retries) s k)
            (resolved-Pinned sink (split urlsplit ip_address sink.url) d refl e)

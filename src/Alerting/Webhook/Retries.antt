-- ===== src/Alerting/Webhook/Retries.antt =====
-- How a delivery of the webhook sink ends.
use mathlib.Core.Path.{subst}
use sentinel_linux.Prelude.{
  ℕ, zero, suc, ◌+◌, ◌≤◌, ◌<◌, ◌≡◌, ◌^◌, refl, sym, ap, true, false, List, [], ◌∷◌, length, ◌⊎◌,
  Bool-cases, inl, inr, arith,
}
use sentinel_linux.Alerting.Webhook.{
  Answer, no_response, status, Delivery, delivered, rejected, gave_up, Sent, is_success,
  is_retryable_status, by_answer, ended, waited, post_loop, post_with_retry,
}

-- An answer after which the sink tries again.
pub data Retryable : Answer → Type 0 where
  lost : Retryable no_response
  overloaded :
      (code : ℕ)
      → is_success code ≡ false
      → is_retryable_status code ≡ true
      → Retryable (status code)

-- An answer that ends the delivery.
pub data Final : Answer → Delivery → Type 0 where
  accepted : (code : ℕ) → is_success code ≡ true → Final (status code) delivered
  denied :
      (code : ℕ)
      → is_success code ≡ false
      → is_retryable_status code ≡ false
      → Final (status code) (rejected code)

-- The waits after `count` attempts, from attempt number `attempt` on.
abbrev pub backoff : ℕ → ℕ → List ℕ
backoff attempt zero = []
backoff attempt (suc count) = 2 ^ attempt ∷ backoff (attempt + 1) count

-- What `count` attempts from number `attempt` on come to: the first answer that is not retryable
-- decides, or the last attempt gives up.
pub data Explained (answers : ℕ → Answer) (count attempt : ℕ) (s : Sent) : Type 0 where
  decided :
      (k : ℕ)
      → k < count
      → ((i : ℕ) → i < k → Retryable (answers (attempt + i)))
      → Final (answers (attempt + k)) s.delivery
      → s.posts ≡ k + 1
      → s.waits ≡ backoff attempt k
      → Explained answers count attempt s
  exhausted :
      ((i : ℕ) → i < count → Retryable (answers (attempt + i)))
      → s.delivery ≡ gave_up
      → s.posts ≡ count
      → suc (length s.waits) ≡ count
      → s.waits ≡ backoff attempt (length s.waits)
      → Explained answers count attempt s

-- Whether an answer ends the delivery.
answer_cases :
    (a : Answer)
    → (Retryable a × ((more : Sent) → by_answer a more ≡ more))
      ⊎ ((d : Delivery) × Final a d × ((more : Sent) → by_answer a more ≡ ended d))
answer_cases no_response = inl (lost, λ more. refl)
answer_cases (status code) = elim (Bool-cases (is_success code)) [
  | inl good ↦ inr (delivered, accepted code good, λ more. rw good refl)
  | inr bad ↦ elim (Bool-cases (is_retryable_status code)) [
    | inl again ↦ inl (overloaded code bad again, λ more. rw (bad, again) refl)
    | inr never ↦ inr (rejected code, denied code bad never, λ more. rw (bad, never) refl)
  ]
]

module _ (answers : ℕ → Answer) where
  at_first : (attempt : ℕ) → Retryable (answers attempt) → Retryable (answers (attempt + 0))
  at_first attempt r =
      let e : attempt ≡ attempt + 0 = omega arith in subst (λ j. Retryable (answers j)) e r

  first_before :
      (count attempt : ℕ)
      → Retryable (answers attempt)
      → ((i : ℕ) → i < count → Retryable (answers (attempt + 1 + i)))
      → (i : ℕ) → i < suc count
      → Retryable (answers (attempt + i))
  first_before count attempt r before zero lt = at_first attempt r
  first_before count attempt r before (suc i) lt =
      let e : attempt + 1 + i ≡ attempt + suc i = omega arith in
      subst (λ j. Retryable (answers j)) e (before i (omega (arith, lt)))

  -- One attempt more in front.
  after_retry :
      (count attempt : ℕ) (s : Sent)
      → Retryable (answers attempt)
      → Explained answers count (attempt + 1) s
      → Explained answers (suc count) attempt (waited (2 ^ attempt) s)
  after_retry count attempt s r (decided k lt before fin p w) =
      let e : attempt + 1 + k ≡ attempt + suc k = omega arith in
      decided (suc k) (omega (arith, lt)) (first_before k attempt r before)
        (subst (λ j. Final (answers j) s.delivery) e fin) (omega (arith, p))
        (ap (◌∷◌ (2 ^ attempt)) w)
  after_retry count attempt s r (exhausted before d p n w) =
      exhausted (first_before count attempt r before) d (omega (arith, p)) (ap suc n)
        (ap (◌∷◌ (2 ^ attempt)) w)

  ended_at_once :
      (count attempt : ℕ) (d : Delivery)
      → Final (answers attempt) d
      → Explained answers (suc count) attempt (ended d)
  ended_at_once count attempt d fin =
      let e : attempt ≡ attempt + 0 = omega arith in
      decided 0 (omega arith) (λ i lt. absurd (omega (arith, lt)))
        (subst (λ j. Final (answers j) d) e fin) (omega arith) refl

  only_attempt :
      (attempt i : ℕ) → Retryable (answers attempt) → i < 1 → Retryable (answers (attempt + i))
  only_attempt attempt zero r lt = at_first attempt r
  only_attempt attempt (suc i) r lt = absurd (omega (arith, lt))

  post_loop-Explained :
      (n attempt : ℕ) → Explained answers (suc n) attempt (post_loop answers (suc n) attempt)
  unfolding post_loop
  post_loop-Explained zero attempt = elim (answer_cases (answers attempt)) [
    | inl r ↦
        subst (Explained answers 1 attempt) (sym (r.1 (ended gave_up)))
          (exhausted (λ i lt. only_attempt attempt i r.0 lt) refl (omega arith) refl refl)
    | inr f ↦
        subst (Explained answers 1 attempt) (sym (f.2 (ended gave_up)))
          (ended_at_once 0 attempt f.0 f.1)
  ]
  post_loop-Explained (suc n) attempt =
      let more = waited (2 ^ attempt) (post_loop answers (suc n) (attempt + 1)) in
      elim (answer_cases (answers attempt)) [
        | inl r ↦ subst (Explained answers (suc (suc n)) attempt) (sym (r.1 more)) (
            after_retry (suc n) attempt (post_loop answers (suc n) (attempt + 1)) r.0
              (post_loop-Explained n (attempt + 1)))
        | inr f ↦
            subst (Explained answers (suc (suc n)) attempt) (sym (f.2 more))
              (ended_at_once (suc n) attempt f.0 f.1)
      ]

  -- However the endpoint answers, the sink makes at most `max_retries` POSTs: the first answer that is
  -- neither lost nor a retryable status decides, as delivered or rejected, after waits of 1, 2, 4, ...
  -- halves of a second; if every attempt fails it gives up, without a wait after the last one.
  pub post_with_retry-Explained :
      (max_retries : ℕ)
      → 1 ≤ max_retries
      → Explained answers max_retries 0 (post_with_retry answers max_retries)
  unfolding post_with_retry
  post_with_retry-Explained zero le = absurd (omega (arith, le))
  post_with_retry-Explained (suc n) le = post_loop-Explained n 0

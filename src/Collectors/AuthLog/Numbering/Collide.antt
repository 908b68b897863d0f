-- ===== src/Collectors/AuthLog/Numbering/Collide.antt =====
-- Where the key of `_number` in authlog.py and the identity of an event in mapper.py disagree.
use sentinel_linux.Prelude.{
  ◌≡◌, ◌≢◌, refl, ap, ◌∙◌, Bool, true, false, none, List, [], ◌∷◌, ◌++◌, map, sym,
}
use text.Mathlib.TextEquality.{eq_iff}
use sentinel_linux.Prelude.Eq.{◌==◌}
use sentinel_linux.Dict.{get, set}
use sentinel_linux.Dict.Laws.{get-set}
use sentinel_linux.RawEvents.{RawAuthEvent}
use sentinel_linux.Normalizer.{auth_identity}
use sentinel_linux.Collectors.AuthLog.Numbering.{auth_key, same_auth_iff, key_of, Numbering, number}

-- Neither record's key was seen in this second.
pub record Fresh (st : Numbering) (r : RawAuthEvent) : Type 0 where
  pub now : r.syslog_ts ≡ st.seen_ts
  pub unseen : get (key_of r) st.seen ≡ none

one_numbered :
    (r : RawAuthEvent) (st : Numbering)
    → Fresh st r
    → number (r ∷ []) st ≡ (record st { seen = set (key_of r) 1 st.seen }, r ∷ [])
unfolding number
one_numbered r st f = rw ((eq_iff r.syslog_ts st.seen_ts).1 f.now) (rw f.unseen refl)

-- Two records of one connection in one second that differ in their message, such as a failed password
-- and a failed key, both get the occurrence they came with, so that their identities stay equal: the
-- occurrence is counted by message, and the identity does not contain the message.
pub number-collides :
    (a b : RawAuthEvent) (st : Numbering)
    → Fresh st a
    → Fresh st b
    → a.message ≢ b.message
    → auth_identity a ≡ auth_identity b
    → let first = number (a ∷ []) st in
      let second = number (b ∷ []) first.0 in
      map auth_identity (first.1 ++ second.1) ≡ auth_identity a ∷ auth_identity a ∷ []
number-collides a b st fa fb ne same =
    let first = one_numbered a st fa in
    let other : key_of a == key_of b ≡ false = differ (key_of a == key_of b) refl in
    let fresh : Fresh (record st { seen = set (key_of a) 1 st.seen }) b = record {
      now = fb.now;
      unseen = get-set (key_of a) (key_of b) 1 st.seen ∙ rw other fb.unseen;
    } in
    let second : (number (b ∷ []) (number (a ∷ []) st).0).1 ≡ b ∷ [] =
      ap (λ (o : Numbering × List RawAuthEvent). (number (b ∷ []) o.0).1) first
      ∙ ap (λ (o : Numbering × List RawAuthEvent). o.1)
          (one_numbered b (record st { seen = set (key_of a) 1 st.seen }) fresh) in
    rw (ap (λ (o : Numbering × List RawAuthEvent). o.1) first, second, sym same) refl
  where
    differ : (x : Bool) → key_of a == key_of b ≡ x → x ≡ false
    differ true e = absurd (ne (ap (λ k. k.message) ((same_auth_iff (key_of a) (key_of b)).0 e)))
    differ false e = refl

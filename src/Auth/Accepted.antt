-- ===== src/Auth/Accepted.antt =====
-- What `consume_handoff_cookie` of backend/blueash_auth.py accepts.
use opportunity_radar.Prelude.{
  ◌>>=◌, lookup, ℕ, ◌+◌, ◌≤◌, ◌≡◌, refl, ap, ◌∙◌, subst, false, not, ◌&&◌, Option, none, some,
  if_cases, arith, Text, text_eq, text_eq→eq, length, Dict,
}
use opportunity_radar.Auth.{Urllib, Result, done, and_then, Value, text}
use opportunity_radar.Auth.ReturnPath.{safe_return_path}
use opportunity_radar.Auth.Signed.{Signed, verify_payload-Signed}
use opportunity_radar.Auth.Handoff.{
  Codec, Settings, HandoffAttempt, is_ascii, verify_payload, Fields, read_fields, is_one,
  accept_fields, is_refused, stored_attempt, typed_fields, check_fields, consume_handoff_cookie,
}

-- The payload whose fields an attempt has.
pub record Carries (lib : Codec) (payload : Dict Value) (attempt : HandoffAttempt) : Type 0 where
  pub state : lookup "state" payload ≡ some (text attempt.state)
  pub verifier : lookup "code_verifier" payload ≡ some (text attempt.code_verifier)
  pub return_path : lookup "return_path" payload ≡ some (text attempt.return_path)
  pub expires_at : (lookup "expires_at" payload >>= lib.to_int) ≡ some attempt.expires_at

-- An attempt that was signed with the key, for this state, and has not expired.
pub record Accepted (lib : Codec) (urls : Urllib) (settings : Settings) (cookie state : Text)
    (now : ℕ) (attempt : HandoffAttempt) : Type 0 where
  pub signed : (payload : Dict Value) × Signed lib cookie payload × Carries lib payload attempt
  pub same_state : attempt.state ≡ state
  pub unexpired : now ≤ attempt.expires_at
  pub bounded : attempt.expires_at ≤ now + 60 + settings.state_ttl
  pub long_verifier : 43 ≤ length attempt.code_verifier
  pub challenge : attempt.code_challenge ≡ lib.challenge attempt.code_verifier
  pub safe_path : safe_return_path urls settings.base attempt.return_path ≡ attempt.return_path

-- What holds of the value, if there is one.
abbrev Holds : {A : Type 0} → (A → Type 0) → Option A → Type 0
Holds Q none = Unit
Holds Q (some a) = Q a

bound :
    {A B : Type 0} (Q : B → Type 0) (o : Option A) (f : A → Option B)
    → ((a : A) → o ≡ some a → Holds Q (f a))
    → Holds Q (o >>= f)
bound Q none f h = tt
bound Q (some a) f h = h a refl

-- What the fields were read from.
record Reads (lib : Codec) (payload : Dict Value) (f : Fields) : Type 0 where
  state : lookup "state" payload ≡ some f.state
  verifier : lookup "code_verifier" payload ≡ some f.verifier
  return_path : lookup "return_path" payload ≡ some f.return_path
  expires_at : (lookup "expires_at" payload >>= lib.to_int) ≡ some f.expires_at

read_fields-Reads :
    (lib : Codec) (payload : Dict Value) → Holds (Reads lib payload) (read_fields lib payload)
unfolding read_fields
read_fields-Reads lib payload =
    let Q = Reads lib payload in
    bound Q (lookup "v" payload) _ (λ version _.
      bound Q (lookup "state" payload) _ (λ state at_state.
        bound Q (lookup "code_verifier" payload) _ (λ verifier at_verifier.
          bound Q (lookup "return_path" payload) _ (λ path at_path.
            bound Q (lookup "issued_at" payload) _ (λ issued _.
              bound Q (lib.to_int issued) _ (λ issued_at _.
                bound Q (lookup "expires_at" payload) _ (λ expires at_expires.
                  bound Q (lib.to_int expires) _ (λ expires_at is_number. record {
                    state = at_state;
                    verifier = at_verifier;
                    return_path = at_path;
                    expires_at = rw at_expires is_number;
                  }))))))))

-- What the tests of the fields leave.
record Checked (lib : Codec) (urls : Urllib) (settings : Settings) (given : Text) (now : ℕ)
    (attempt : HandoffAttempt) : Type 0 where
  same_state : attempt.state ≡ given
  unexpired : now ≤ attempt.expires_at
  bounded : attempt.expires_at ≤ now + 60 + settings.state_ttl
  long_verifier : 43 ≤ length attempt.code_verifier
  challenge : attempt.code_challenge ≡ lib.challenge attempt.code_verifier
  safe_path : safe_return_path urls settings.base attempt.return_path ≡ attempt.return_path

-- The two texts that an equality test compares.
is_equal : (s t : Text) → not (text_eq s t) ≡ false → s ≡ t
is_equal s t h = text_eq→eq s t (ground arith)

module _ (lib : Codec) (urls : Urllib) (settings : Settings) (given : Text) (now : ℕ) where
  stored_attempt-Checked :
      (s v p : Text) (issued expires : ℕ)
      → is_refused urls settings given s v p now issued expires ≡ false
      → Checked lib urls settings given now (stored_attempt lib s v p expires)
  unfolding is_refused stored_attempt
  stored_attempt-Checked s v p issued expires h = record {
    same_state = is_equal s given (ground arith);
    unexpired = ground arith;
    bounded = ground arith;
    long_verifier = ground arith;
    challenge = refl;
    safe_path = is_equal _ p (ground arith);
  }

  -- An attempt that was read from a payload, and checked.
  IsOf : Dict Value → Result HandoffAttempt → Type 0
  IsOf d (done attempt) = Checked lib urls settings given now attempt × Carries lib d attempt
  IsOf d r = Unit

  fields-IsOf :
      (d : Dict Value) (s v p : Text) (issued expires : ℕ) (f : Fields)
      → f.state ≡ text s
      → f.verifier ≡ text v
      → f.return_path ≡ text p
      → f.expires_at ≡ expires
      → Reads lib d f
      → IsOf d (accept_fields lib urls settings given s v p now issued expires)
  unfolding accept_fields IsOf
  fields-IsOf d s v p issued expires f es ev ep ee r =
      if_cases (IsOf d) (not (is_ascii s && is_ascii given)) (λ _. tt)
        (λ _.
          if_cases (IsOf d) (is_refused urls settings given s v p now issued expires) (λ _. tt)
            (λ ok.
              if_cases (IsOf d) (not (is_ascii v)) {y = done (stored_attempt lib s v p expires)}
                (λ _. tt)
                (λ _. (
                  stored_attempt-Checked s v p issued expires ok,
                  unfold stored_attempt in
                      record {
                        state = r.state ∙ ap some es;
                        verifier = r.verifier ∙ ap some ev;
                        return_path = r.return_path ∙ ap some ep;
                        expires_at = r.expires_at ∙ ap some ee;
                      },
                ))))

  typed_fields-IsOf :
      (d : Dict Value) (f : Fields) (s v p : Value)
      → f.state ≡ s
      → f.verifier ≡ v
      → f.return_path ≡ p
      → Reads lib d f
      → IsOf d (typed_fields lib urls settings given now s v p f.issued_at f.expires_at)
  unfolding typed_fields IsOf
  typed_fields-IsOf d f (text s) (text v) (text p) es ev ep r =
      fields-IsOf d s v p f.issued_at f.expires_at f es ev ep refl r
  typed_fields-IsOf d f s v p es ev ep r = tt

  check_fields-IsOf :
      (d : Dict Value) (o : Option Fields)
      → Holds (Reads lib d) o
      → IsOf d (check_fields lib urls settings given now o)
  unfolding check_fields IsOf
  check_fields-IsOf d none h = tt
  check_fields-IsOf d (some f) h =
      if_cases (IsOf d) (not (is_one f.version)) (λ _. tt)
        (λ _. typed_fields-IsOf d f f.state f.verifier f.return_path refl refl refl h)

  and_then-done :
      (payload : Result (Dict Value)) (attempt : HandoffAttempt)
      → and_then payload (λ d. check_fields lib urls settings given now (read_fields lib d))
        ≡ done attempt
      → (d : Dict Value) × (payload ≡ done d)
        × (check_fields lib urls settings given now (read_fields lib d) ≡ done attempt)
  unfolding and_then
  and_then-done (done d) attempt e = (d, refl, e)
  and_then-done r attempt e = cc

  Accepted-parts :
      (cookie : Text) (attempt : HandoffAttempt)
      → and_then
          (verify_payload lib cookie)
          (λ d. check_fields lib urls settings given now (read_fields lib d))
        ≡ done attempt
      → Accepted lib urls settings cookie given now attempt
  unfolding IsOf
  Accepted-parts cookie attempt e =
      let d = and_then-done (verify_payload lib cookie) attempt e in
      let c : Checked lib urls settings given now attempt × Carries lib d.0 attempt =
        subst (IsOf d.0) d.2
          (check_fields-IsOf d.0 (read_fields lib d.0) (read_fields-Reads lib d.0)) in
      record {
        signed = (d.0, verify_payload-Signed lib cookie d.0 d.1, c.1);
        same_state = c.0.same_state;
        unexpired = c.0.unexpired;
        bounded = c.0.bounded;
        long_verifier = c.0.long_verifier;
        challenge = c.0.challenge;
        safe_path = c.0.safe_path;
      }

-- Whatever the cookie and the state in the query: the cookie of an accepted attempt is a text with
-- its signature under the secret key; and that text, the signed one, decodes to the payload from
-- which the attempt has its state, verifier, return path and expiry. It is for the same state; it
-- has not expired and expires within the state's lifetime and a minute; its verifier has 43
-- characters or more, and the challenge is that of the verifier; and its return path is a safe one.
pub consume-Accepted :
    (lib : Codec) (urls : Urllib) (settings : Settings) (cookie state : Text) (now : ℕ)
    (attempt : HandoffAttempt)
    → consume_handoff_cookie lib urls settings cookie state now ≡ done attempt
    → Accepted lib urls settings cookie state now attempt
unfolding consume_handoff_cookie
consume-Accepted lib urls settings cookie state now attempt e =
    Accepted-parts lib urls settings state now cookie attempt (ground (arith, e))

-- ===== src/Auth/RoundTrip.antt =====
-- `consume_handoff_cookie` of backend/blueash_auth.py on the cookie of `create_handoff_attempt`.
use opportunity_radar.Prelude.{
  ℕ, String, ◌+◌, ◌≤◌, ◌≡◌, ◌≢◌, refl, sym, ap, ◌∙◌, subst, true, false, ◌&&◌, ◌||◌, some, [], ◌∷◌,
  ◌++◌, ltb, arith, Text, codes, text_eq, text_eq_self, strip, length, All, Dict, lookup,
}
use opportunity_radar.Auth.{Urllib, done, and_then, Value, number, text, object}
use opportunity_radar.Auth.ReturnPath.{is_empty, safe_return_path, fallback}
use opportunity_radar.Auth.LocalPath.{safe_return_path_idem}
use opportunity_radar.Auth.Handoff.{
  Codec, Settings, HandoffAttempt, is_ascii, handoff_payload, with_signature, sign_payload,
  new_attempt, create_handoff_attempt, split_dot, payload_of, verify_parts, verify_payload, Fields,
  read_fields, is_one, accept_fields, is_refused, stored_attempt, typed_fields, check_fields,
  consume_handoff_cookie,
}

-- What the standard library documents, at a payload: base64url has no dot and is ASCII, a digest
-- has 43 characters of it, an object is read back as it was written, and `int` keeps an integer.
pub record IsCodec (lib : Codec) (d : Dict Value) : Type 0 where
  pub dotless : All (λ c. c ≢ b'.') (lib.dumps d)
  pub ascii_dumps : is_ascii (lib.dumps d) ≡ true
  pub ascii_hmac : is_ascii (lib.hmac (lib.dumps d)) ≡ true
  pub short_hmac : length (lib.hmac (lib.dumps d)) ≤ 128
  pub reads_back :
      (e : Dict Value) × (lib.loads (lib.dumps d) ≡ object e)
      × ((k : String) → lookup k e ≡ lookup k d)
  pub keeps_int : (n : ℕ) → lib.to_int (number n) ≡ some n

pub split_dot-append :
    (encoded supplied : Text)
    → All (λ c. c ≢ b'.') encoded
    → split_dot (encoded ++ codes "." ++ supplied) ≡ some (encoded, supplied)
unfolding split_dot
split_dot-append [] supplied h = refl
split_dot-append (c ∷ t) supplied h = ground (arith, split_dot-append t supplied h.1, h.0)

verify_parts-signed :
    (lib : Codec) (encoded : Text)
    → length encoded ≤ 4_096
    → length (lib.hmac encoded) ≤ 128
    → is_ascii encoded ≡ true
    → is_ascii (lib.hmac encoded) ≡ true
    → verify_parts lib (some (encoded, lib.hmac encoded)) ≡ payload_of (lib.loads encoded)
unfolding verify_parts
verify_parts-signed lib encoded short short_mac ascii ascii_mac =
    ground (arith, text_eq_self (lib.hmac encoded))

module _ (lib : Codec) (d : Dict Value) (documented : IsCodec lib d) where
  verify-sign :
      length (lib.dumps d) ≤ 4_096
      → (e : Dict Value) × (verify_payload lib (sign_payload lib d) ≡ done e)
        × ((k : String) → lookup k e ≡ lookup k d)
  unfolding verify_payload sign_payload with_signature payload_of
  verify-sign short =
      let (e, read, same) = documented.reads_back in
      (
        e,
        ap (verify_parts lib)
              (split_dot-append (lib.dumps d) (lib.hmac (lib.dumps d)) documented.dotless)
            ∙ (verify_parts-signed lib (lib.dumps d) short documented.short_hmac
                  documented.ascii_dumps documented.ascii_hmac
                ∙ ap payload_of read),
        same,
      )

  written_fields : HandoffAttempt → ℕ → Fields
  written_fields a issued = record {
    version = number 1;
    state = text a.state;
    verifier = text a.code_verifier;
    return_path = text a.return_path;
    issued_at = issued;
    expires_at = a.expires_at;
  }

  read-written :
      (a : HandoffAttempt) (issued : ℕ) (e : Dict Value)
      → ((k : String) → lookup k e ≡ lookup k (handoff_payload a issued))
      → read_fields lib e ≡ some (written_fields a issued)
  unfolding read_fields handoff_payload lookup written_fields
  read-written a issued e same =
      rw
        (
          same "v",
          same "state",
          same "code_verifier",
          same "return_path",
          same "issued_at",
          same "expires_at",
          documented.keeps_int issued,
          documented.keeps_int a.expires_at,
        )
        refl

is_refused-new :
    (lib : Codec) (urls : Urllib) (settings : Settings) (return_to state verifier : Text)
    (issued now : ℕ)
    → strip (fallback settings.base) ≡ fallback settings.base
    → 43 ≤ length verifier
    → issued ≤ now + 60
    → now ≤ issued + settings.state_ttl
    → is_refused urls settings state state verifier
        (safe_return_path urls settings.base return_to)
        now
        issued
        (issued + settings.state_ttl)
      ≡ false
unfolding is_refused
is_refused-new lib urls settings return_to state verifier issued now root long early late =
    let p = safe_return_path urls settings.base return_to in
    let same : text_eq (safe_return_path urls settings.base p) p ≡ true =
      subst (λ x. text_eq x p ≡ true)
        (sym (safe_return_path_idem urls settings.base return_to root)) (text_eq_self p) in
    ground (arith, same, text_eq_self state, long, early, late)

-- What the two answers of `token_urlsafe` look like.
pub record IsTokens (state verifier : Text) : Type 0 where
  pub some_state : is_empty state ≡ false
  pub short_state : length state ≤ 512
  pub ascii_state : is_ascii state ≡ true
  pub ascii_verifier : is_ascii verifier ≡ true
  pub long_verifier : 43 ≤ length verifier

accept_fields-new :
    (lib : Codec) (urls : Urllib) (settings : Settings) (return_to state verifier : Text)
    (issued now : ℕ)
    → IsTokens state verifier
    → strip (fallback settings.base) ≡ fallback settings.base
    → issued ≤ now + 60
    → now ≤ issued + settings.state_ttl
    → accept_fields lib urls settings state state verifier
        (safe_return_path urls settings.base return_to)
        now
        issued
        (issued + settings.state_ttl)
      ≡ done (new_attempt lib urls settings return_to state verifier issued)
unfolding accept_fields new_attempt stored_attempt
accept_fields-new lib urls settings return_to state verifier issued now tokens root early late =
    rw
      (
        tokens.ascii_state,
        is_refused-new lib urls settings return_to state verifier issued now root
            tokens.long_verifier early late,
        tokens.ascii_verifier,
      )
      refl

pub dotted-nonempty : (s t : Text) → is_empty (s ++ codes "." ++ t) ≡ false
unfolding is_empty
dotted-nonempty [] t = refl
dotted-nonempty (c ∷ s) t = refl

sign_payload-nonempty : (lib : Codec) (d : Dict Value) → is_empty (sign_payload lib d) ≡ false
unfolding sign_payload with_signature
sign_payload-nonempty lib d = dotted-nonempty (lib.dumps d) (lib.hmac (lib.dumps d))

pub consume-sign :
    (lib : Codec) (urls : Urllib) (settings : Settings) (return_to state verifier : Text)
    (issued now : ℕ)
    → IsCodec lib
        (handoff_payload (new_attempt lib urls settings return_to state verifier issued) issued)
    → IsTokens state verifier
    → strip (fallback settings.base) ≡ fallback settings.base
    → length (
        lib.dumps
          (handoff_payload (new_attempt lib urls settings return_to state verifier issued) issued))
      ≤ 4_096
    → issued ≤ now + 60
    → now ≤ issued + settings.state_ttl
    → consume_handoff_cookie lib urls settings
        (sign_payload lib
          (handoff_payload (new_attempt lib urls settings return_to state verifier issued) issued))
        state
        now
      ≡ done (new_attempt lib urls settings return_to state verifier issued)
unfolding consume_handoff_cookie and_then check_fields is_one typed_fields written_fields
    new_attempt
consume-sign lib urls settings return_to state verifier issued now documented tokens root short
      early late =
    let a = new_attempt lib urls settings return_to state verifier issued in
    let (e, verified, same) = verify-sign lib (handoff_payload a issued) documented short in
    let open_ : (is_empty (sign_payload lib (handoff_payload a issued))
          || is_empty state
          || ltb 512 (length state))
        ≡ false =
      ground (
        arith,
        tokens.some_state,
        tokens.short_state,
        sign_payload-nonempty lib (handoff_payload a issued),
      ) in
    rw (open_, verified, read-written lib (handoff_payload a issued) documented a issued e same)
      (accept_fields-new lib urls settings return_to state verifier issued now tokens root early
        late)

-- If the configuration is a valid one for the handoff, `create_handoff_attempt` makes an attempt
-- and a cookie. If the encoded payload has no more than 4,096 characters, the cookie is accepted
-- with the state that was sent, from a minute before it was issued until the state's lifetime has
-- passed; and the result is the attempt that was made.
pub consume-create :
    (lib : Codec) (urls : Urllib) (settings : Settings) (return_to state verifier : Text)
    (issued now : ℕ)
    → IsCodec lib
        (handoff_payload (new_attempt lib urls settings return_to state verifier issued) issued)
    → IsTokens state verifier
    → strip (fallback settings.base) ≡ fallback settings.base
    → (settings.is_valid && settings.is_handoff) ≡ true
    → length (
        lib.dumps
          (handoff_payload (new_attempt lib urls settings return_to state verifier issued) issued))
      ≤ 4_096
    → issued ≤ now + 60
    → now ≤ issued + settings.state_ttl
    → (attempt : HandoffAttempt) × (cookie : Text) × (create_handoff_attempt lib urls settings
          return_to state verifier issued
        ≡ done (attempt, cookie))
      × (consume_handoff_cookie lib urls settings cookie state now ≡ done attempt)
unfolding create_handoff_attempt
consume-create lib urls settings return_to state verifier issued now documented tokens root valid
      short early late =
    (
      new_attempt lib urls settings return_to state verifier issued,
      sign_payload lib
          (handoff_payload (new_attempt lib urls settings return_to state verifier issued) issued),
      rw valid refl,
      consume-sign lib urls settings return_to state verifier issued now documented tokens root
          short early late,
    )

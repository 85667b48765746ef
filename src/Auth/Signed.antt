-- ===== src/Auth/Signed.antt =====
-- What the signature of a handoff cookie of backend/blueash_auth.py vouches for.
use opportunity_radar.Prelude.{
  ◌≡◌, ap, ◌∙◌, subst, inl, inr, some, [], ◌∷◌, ◌++◌, arith, Text, codes, text_eq, text_eq→eq, Dict,
  Bool-cases, Option-cases,
}
use opportunity_radar.Auth.{done, Value, Loaded, malformed, object, bare}
use opportunity_radar.Auth.Handoff.{
  Codec, with_signature, split_dot, payload_of, verify_parts, verify_payload,
}

-- The cookie is a text with its signature under the key, and that text is the payload's.
pub record Signed (lib : Codec) (cookie : Text) (payload : Dict Value) : Type 0 where
  pub encoded : Text
  pub with_key : cookie ≡ with_signature lib encoded
  pub decoded : lib.loads encoded ≡ object payload

split_dot-parts :
    (t encoded supplied : Text)
    → split_dot t ≡ some (encoded, supplied)
    → t ≡ encoded ++ codes "." ++ supplied
unfolding split_dot
split_dot-parts [] encoded supplied e = cc
split_dot-parts (c ∷ t) encoded supplied e = elim (Option-cases (split_dot t)) [
  | inl none_ ↦ ground (arith, none_)
  | inr ((a, b), found) ↦ ground (arith, found, split_dot-parts t a b found)
]

payload_of-done :
    (l : Loaded) (payload : Dict Value) → payload_of l ≡ done payload → l ≡ object payload
unfolding payload_of
payload_of-done malformed payload e = cc e
payload_of-done bare payload e = cc e
payload_of-done (object d) payload e = cc e

verify_parts-done :
    (lib : Codec) (encoded supplied : Text) (payload : Dict Value)
    → verify_parts lib (some (encoded, supplied)) ≡ done payload
    → (supplied ≡ lib.hmac encoded) × (payload_of (lib.loads encoded) ≡ done payload)
unfolding verify_parts
verify_parts-done lib encoded supplied payload e =
    elim (Bool-cases (text_eq supplied (lib.hmac encoded))) [
      | inl h ↦ (text_eq→eq supplied (lib.hmac encoded) h, ground (arith, h, e))
      | inr h ↦ absurd (ground (arith, h, e))
    ]

pub verify_payload-Signed :
    (lib : Codec) (cookie : Text) (payload : Dict Value)
    → verify_payload lib cookie ≡ done payload
    → Signed lib cookie payload
unfolding verify_payload with_signature
verify_payload-Signed lib cookie payload e = elim (Option-cases (split_dot cookie)) [
  | inl none_ ↦ cc (subst (λ o. verify_parts lib o ≡ done payload) none_ e)
  | inr ((encoded, supplied), found) ↦
      let parts =
        verify_parts-done lib encoded supplied payload
          (subst (λ o. verify_parts lib o ≡ done payload) found e) in
      record {
        encoded = encoded;
        with_key =
            split_dot-parts cookie encoded supplied found
            ∙ ap (λ s. encoded ++ codes "." ++ s) parts.0;
        decoded = payload_of-done (lib.loads encoded) payload parts.1;
      }
]

-- ===== src/Email/Sealed.antt =====
-- What the cipher of backend/email_service.py gives back, and what it refuses.
use mathlib.Core.List.{append_assoc}
use opportunity_radar.Prelude.{
  ℕ, zero, suc, ◌+◌, ◌-◌, ◌*◌, ◌/◌, ◌%◌, ◌≤◌, ◌<◌, ◌≡◌, refl, sym, subst, ap, ◌∙◌, inl, inr, false,
  not, ◌||◌, some, [], ◌∷◌, ◌++◌, ltb, arith, length, take, All, length-append, Text, text_eq,
  text_eq_self, text_eq→eq, Bool-cases, Option-cases,
}
use opportunity_radar.Email.Cipher.{
  Bytes, drop, xor_bits, xor_bytes, Cipher, stream, keystream, encrypt, open_parts, opened, decrypt,
  IsStandard,
}

-- A number of so many bits.
IsBits : ℕ → ℕ → Type 0
IsBits zero a = a ≡ 0
IsBits (suc n) a = IsBits n (a / 2)

byte-IsBits : (a : ℕ) → a < 256 → IsBits 8 a
unfolding IsBits
byte-IsBits a h = omega (arith, h)

halved : (r k : ℕ) → r < 2 → (r + 2 * k) / 2 ≡ k
halved r k h = omega (arith, h)

bit_twice : (a b k : ℕ) → (((a % 2 + b % 2) % 2 + 2 * k) % 2 + b % 2) % 2 ≡ a % 2
bit_twice a b k = omega arith

xor_bits_twice : (n a b : ℕ) → IsBits n a → xor_bits n (xor_bits n a b) b ≡ a
unfolding xor_bits IsBits
xor_bits_twice zero a b h = sym h
xor_bits_twice (suc n) a b h =
    let k = xor_bits n (a / 2) (b / 2) in
    rw
      (
        bit_twice a b k,
        halved ((a % 2 + b % 2) % 2) k (omega arith),
        xor_bits_twice n (a / 2) (b / 2) h,
      )
      (omega arith)

xor_bytes_twice :
    (text key : Bytes)
    → All (λ b. b < 256) text
    → length text ≤ length key
    → xor_bytes (xor_bytes text key) key ≡ text
unfolding xor_bytes
xor_bytes_twice [] key h le = refl
xor_bytes_twice (a ∷ text) [] h le = absurd (omega (arith, le))
xor_bytes_twice (a ∷ text) (b ∷ key) h le =
    rw (xor_bits_twice 8 a b (byte-IsBits a h.0), xor_bytes_twice text key h.1 (omega (arith, le)))
      refl

length-xor_bytes :
    (text key : Bytes) → length text ≤ length key → length (xor_bytes text key) ≡ length text
unfolding xor_bytes
length-xor_bytes [] key le = refl
length-xor_bytes (a ∷ text) [] le = absurd (omega (arith, le))
length-xor_bytes (a ∷ text) (b ∷ key) le =
    omega (arith, length-xor_bytes text key (omega (arith, le)))

length-take : (n : ℕ) (xs : Bytes) → n ≤ length xs → length (take n xs) ≡ n
length-take zero xs le = refl
length-take (suc n) [] le = absurd (omega (arith, le))
length-take (suc n) (x ∷ xs) le = omega (arith, length-take n xs (omega (arith, le)))

take-append : (xs ys : Bytes) → take (length xs) (xs ++ ys) ≡ xs
take-append [] ys = refl
take-append (x ∷ xs) ys = ap (λ (r : Bytes). x ∷ r) (take-append xs ys)

drop-append : (xs ys : Bytes) → drop (length xs) (xs ++ ys) ≡ ys
drop-append [] ys = refl
drop-append (x ∷ xs) ys = drop-append xs ys

long_enough : (n : ℕ) → ltb (48 + n) 48 ≡ false
long_enough n = ground arith

module _ (c : Cipher) (value : Text) (standard : IsStandard c value) where
  stream-enough :
      (fuel : ℕ) (nonce : Bytes) (size counter : ℕ) (output : Bytes)
      → size ≤ fuel + length output
      → size ≤ length (stream c fuel nonce size counter output)
  unfolding stream
  stream-enough zero nonce size counter output le = omega (arith, le)
  stream-enough (suc fuel) nonce size counter output le =
      elim (Bool-cases (ltb (length output) size)) [
        | inl h ↦
            let block = c.hmac c.encryption_key (nonce ++ c.counter_bytes counter) in
            rw (h, stream)
              (stream-enough fuel nonce size (counter + 1) (output ++ block) (
                omega (
                  arith,
                  le,
                  length-append output block,
                  standard.code_size c.encryption_key (nonce ++ c.counter_bytes counter),
                )))
        | inr h ↦ rw (h, stream) (ground (arith, h))
      ]

  -- The loop of `keystream` makes as many bytes as asked for.
  length-keystream : (nonce : Bytes) (size : ℕ) → length (keystream c nonce size) ≡ size
  unfolding keystream
  length-keystream nonce size =
      length-take size (stream c size nonce size 0 [])
        (stream-enough size nonce size 0 [] (omega arith))

  -- A payload of a nonce, a text and a code is cut where it was joined.
  opened-joined :
      (nonce text tag : Bytes)
      → length nonce ≡ 16
      → length tag ≡ 32
      → opened c (nonce ++ (text ++ tag)) ≡ open_parts c (48 + length text) nonce text tag
  unfolding opened
  opened-joined nonce text tag short size =
      let payload = nonce ++ (text ++ tag) in
      let joined : payload ≡ (nonce ++ text) ++ tag = sym (append_assoc nonce text tag) in
      let total : length payload ≡ 48 + length text =
        omega (arith, length-append nonce (text ++ tag), length-append text tag, short, size) in
      let cut : length payload - 32 ≡ length (nonce ++ text) =
        omega (arith, total, length-append nonce text, short) in
      let first : take 16 payload ≡ nonce =
        subst (λ n. take n payload ≡ nonce) short (take-append nonce (text ++ tag)) in
      let body : take (length payload - 32) payload ≡ nonce ++ text =
        rw (cut, joined) (take-append (nonce ++ text) tag) in
      let code : drop (length payload - 32) payload ≡ tag =
        rw (cut, joined) (drop-append (nonce ++ text) tag) in
      let middle : drop 16 (nonce ++ text) ≡ text =
        subst (λ n. drop n (nonce ++ text) ≡ text) short (drop-append nonce text) in
      rw (body, code, first, middle, total) refl

  opened-sealed :
      (nonce text : Bytes)
      → length nonce ≡ 16
      → opened c (nonce ++ (text ++ c.hmac c.authentication_key (nonce ++ text)))
        ≡ c.decode_utf8 (xor_bytes text (keystream c nonce (length text)))
  unfolding open_parts
  opened-sealed nonce text short =
      let tag = c.hmac c.authentication_key (nonce ++ text) in
      opened-joined nonce text tag short (standard.code_size c.authentication_key (nonce ++ text))
      ∙ rw (long_enough (length text), text_eq_self tag) refl

  -- What was encrypted with a nonce of 16 bytes is decrypted to the same text, if HMAC gives 32 bytes
  -- and base64 and UTF-8 are decoded as they were encoded.
  pub decrypt-encrypt :
      (nonce : Bytes) → length nonce ≡ 16 → decrypt c (encrypt c nonce value) ≡ some value
  unfolding decrypt encrypt
  decrypt-encrypt nonce short =
      let plain = c.encode_utf8 value in
      let key = keystream c nonce (length plain) in
      let key_size : length plain ≤ length key =
        omega (arith, length-keystream nonce (length plain)) in
      let hidden = xor_bytes plain key in
      let tag = c.hmac c.authentication_key (nonce ++ hidden) in
      let undone : c.decode_utf8 (xor_bytes hidden (keystream c nonce (length hidden)))
          ≡ some value =
        rw
          (length-xor_bytes plain key key_size, xor_bytes_twice plain key standard.is_byte key_size)
          standard.utf8 in
      rw (standard.base64 (nonce ++ (hidden ++ tag))) (opened-sealed nonce hidden short ∙ undone)

-- A payload that was sealed with the authentication key: it has room for a nonce and a code, and its
-- last 32 bytes are the code of all that is before them.
abbrev pub IsSealed : Cipher → Bytes → Type 0
IsSealed c payload =
    (48 ≤ length payload)
    × (drop (length payload - 32) payload
        ≡ c.hmac c.authentication_key
            (take 16 payload ++ drop 16 (take (length payload - 32) payload)))

genuine :
    (size : ℕ) (tag code : Bytes)
    → (ltb size 48 || not (text_eq tag code)) ≡ false
    → (48 ≤ size) × (tag ≡ code)
genuine size tag code h = (ground (arith, h), text_eq→eq tag code (ground (arith, h)))

parts-genuine :
    (c : Cipher) (size : ℕ) (nonce ciphertext tag : Bytes) (value : Text)
    → open_parts c size nonce ciphertext tag ≡ some value
    → (48 ≤ size) × (tag ≡ c.hmac c.authentication_key (nonce ++ ciphertext))
unfolding open_parts
parts-genuine c size nonce ciphertext tag value e =
    let code = c.hmac c.authentication_key (nonce ++ ciphertext) in
    elim (Bool-cases (ltb size 48 || not (text_eq tag code))) [
      | inl h ↦ cc (rw h at e)
      | inr h ↦ genuine size tag code h
    ]

-- Nothing is decrypted but a payload that was sealed with the key.
pub decrypt-IsSealed :
    (c : Cipher) (stored value : Text)
    → decrypt c stored ≡ some value
    → (payload : Bytes) × (c.decode_base64 stored ≡ some payload) × IsSealed c payload
unfolding decrypt opened
decrypt-IsSealed c stored value e = elim (Option-cases (c.decode_base64 stored)) [
  | inl h ↦ cc (rw h at e)
  | inr (payload, h) ↦
      let read : opened c payload ≡ some value = rw h at e in
      (
        payload,
        h,
        parts-genuine c (length payload) (take 16 payload)
            (drop 16 (take (length payload - 32) payload)) (drop (length payload - 32) payload)
            value read,
      )
]

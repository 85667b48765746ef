-- ===== src/Email/Cipher.antt =====
-- `SecretCipher` of backend/email_service.py. A byte is a number below 256. HMAC, base64 and UTF-8
-- are arguments.
use opportunity_radar.Prelude.{
  ℕ, zero, suc, ◌+◌, ◌-◌, ◌*◌, ◌/◌, ◌%◌, ◌<◌, ◌≡◌, not, ◌||◌, Option, none, some, List, [], ◌∷◌,
  ◌++◌, ltb, if◌then◌else◌, length, take, All, Text, text_eq, ◌>>=◌,
}

abbrev pub Bytes : Type 0
Bytes = List ℕ

abbrev pub drop : ℕ → Bytes → Bytes
drop zero xs = xs
drop (suc n) [] = []
drop (suc n) (x ∷ xs) = drop n xs

-- a ^ b, on the lowest bits
unfoldable pub xor_bits : (bits : ℕ) → ℕ → ℕ → ℕ
xor_bits zero a b = 0
xor_bits (suc n) a b = (a % 2 + b % 2) % 2 + 2 * xor_bits n (a / 2) (b / 2)

-- `xor_bytes`, as long as the shorter one
unfoldable pub xor_bytes : Bytes → Bytes → Bytes
unfolding xor_bits
xor_bytes [] right = []
xor_bytes (a ∷ left) [] = []
xor_bytes (a ∷ left) (b ∷ right) = xor_bits 8 a b ∷ xor_bytes left right

-- The two keys that `__init__` derives, and what the standard library computes.
pub record Cipher : Type 0 where
  pub encryption_key : Bytes
  pub authentication_key : Bytes
  pub hmac : (key message : Bytes) → Bytes
  pub counter_bytes : ℕ → Bytes
  pub encode_base64 : Bytes → Text
  pub decode_base64 : Text → Option Bytes
  pub encode_utf8 : Text → Bytes
  pub decode_utf8 : Bytes → Option Text

module _ (c : Cipher) where
  -- The loop of `keystream`; each round adds a block, so that `size` rounds are enough.
  unfoldable pub stream :
      (fuel : ℕ) → (nonce : Bytes) → (size counter : ℕ) → (output : Bytes) → Bytes
  stream zero nonce size counter output = output
  stream (suc fuel) nonce size counter output =
      let more =
        stream fuel nonce size (counter + 1)
          (output ++ c.hmac c.encryption_key (nonce ++ c.counter_bytes counter)) in
      if ltb (length output) size then more else output

  unfoldable pub keystream : (nonce : Bytes) → (size : ℕ) → Bytes
  unfolding stream
  keystream nonce size = take size (stream size nonce size 0 [])

  -- `encrypt`, for a nonce of 16 random bytes
  unfoldable pub encrypt : (nonce : Bytes) → Text → Text
  unfolding keystream xor_bytes
  encrypt nonce value =
      let plaintext = c.encode_utf8 value in
      let ciphertext = xor_bytes plaintext (keystream nonce (length plaintext)) in
      let tag = c.hmac c.authentication_key (nonce ++ ciphertext) in
      c.encode_base64 (nonce ++ (ciphertext ++ tag))

  -- The three parts of a payload of that size.
  unfoldable pub open_parts : (size : ℕ) → (nonce ciphertext tag : Bytes) → Option Text
  unfolding keystream xor_bytes
  open_parts size nonce ciphertext tag =
      if ltb size 48 || not (text_eq tag (c.hmac c.authentication_key (nonce ++ ciphertext)))
      then none
      else c.decode_utf8 (xor_bytes ciphertext (keystream nonce (length ciphertext)))

  -- payload[:16], payload[16:-32] and payload[-32:]
  unfoldable pub opened : Bytes → Option Text
  unfolding open_parts
  opened payload =
      open_parts (length payload) (take 16 payload) (drop 16 (take (length payload - 32) payload))
        (drop (length payload - 32) payload)

  -- `decrypt`; `none` is `InvalidSecretToken`
  unfoldable pub decrypt : Text → Option Text
  unfolding opened
  decrypt value = c.decode_base64 value >>= opened

  -- What the standard library documents: the size of a SHA-256 code, and that decoding undoes
  -- encoding, for UTF-8 at a text that has an encoding.
  pub record IsStandard (value : Text) : Type 0 where
    pub code_size : (key message : Bytes) → length (c.hmac key message) ≡ 32
    pub base64 : (bytes : Bytes) → c.decode_base64 (c.encode_base64 bytes) ≡ some bytes
    pub utf8 : c.decode_utf8 (c.encode_utf8 value) ≡ some value
    pub is_byte : All (λ b. b < 256) (c.encode_utf8 value)

-- ===== src/External.antt =====
-- What the program takes from code outside the repository, as parameters of the model: IEEE
-- doubles, the random generator, the snow handshake, ChaCha20-Poly1305 and HMAC-SHA256.
use ostp.Prelude.{ℕ, ◌+◌, ◌≤◌, ◌≡◌, Bool, Option, some, List, length, All, IsByte}

-- The operations on `f64` that congestion.rs uses. No law is assumed of them.
pub record F64 (F : Type 0) : Type 0 where
  -- `u64 as f64`, and literals with no fractional part
  pub of_nat : ℕ → F
  -- `Duration::as_secs_f64`, of nanoseconds
  pub as_secs : ℕ → F
  pub add : F → F → F
  pub sub : F → F → F
  pub mul : F → F → F
  pub div : F → F → F
  pub fmin : F → F → F
  pub fmax : F → F → F
  -- `a >= b`
  pub ge : F → F → Bool

-- The thread's random generator (crate rand): the values of the draws, by the number of the draw.
pub record Rng : Type 0 where
  -- `gen_range(lo..=hi)`
  pub gen_range : ℕ → ℕ → ℕ → ℕ
  -- `fill` on a buffer of that many bytes
  pub fill : ℕ → ℕ → List ℕ
  -- `random::<u16>()`, as its two bytes
  pub high_byte : ℕ → ℕ
  pub low_byte : ℕ → ℕ
  pub gen_range-ge : (draw lo hi : ℕ) → lo ≤ hi → lo ≤ gen_range draw lo hi
  pub gen_range-le : (draw lo hi : ℕ) → lo ≤ hi → gen_range draw lo hi ≤ hi
  pub length-fill : (draw n : ℕ) → length (fill draw n) ≡ n

-- SHA-256 and HMAC-SHA256 (crates sha2 and hmac): digests of 32 bytes.
pub record Hash : Type 0 where
  pub sha256 : List ℕ → List ℕ
  -- the key, and the concatenation of what `update` was given
  pub hmac : List ℕ → List ℕ → List ℕ
  pub length-sha256 : (input : List ℕ) → length (sha256 input) ≡ 32
  pub length-hmac : (key input : List ℕ) → length (hmac key input) ≡ 32
  pub hmac-IsByte : (key input : List ℕ) → All IsByte (hmac key input)

-- ChaCha20-Poly1305 (crate chacha20poly1305), of a key, a nonce of 12 bytes, a text and associated
-- data: what was encrypted decrypts again, and a ciphertext has a tag of 16 bytes.
pub record Aead : Type 0 where
  pub encrypt : List ℕ → List ℕ → List ℕ → List ℕ → Option (List ℕ)
  pub decrypt : List ℕ → List ℕ → List ℕ → List ℕ → Option (List ℕ)
  pub decrypt-encrypt :
      (key nonce text aad cipher : List ℕ)
      → encrypt key nonce text aad ≡ some cipher
      → decrypt key nonce cipher aad ≡ some text
  pub length-encrypt :
      (key nonce text aad cipher : List ℕ)
      → encrypt key nonce text aad ≡ some cipher
      → length cipher ≡ length text + 16
  pub encrypt-IsByte :
      (key nonce text aad cipher : List ℕ)
      → encrypt key nonce text aad ≡ some cipher
      → All IsByte cipher

-- The handshake of crate snow, Noise_NNpsk0_25519_ChaChaPoly_BLAKE2s, with its state.
pub record Snow (S : Type 0) : Type 0 where
  pub build_initiator : List ℕ → Option S
  pub build_responder : List ℕ → Option S
  -- a payload and the room for the message
  pub write_message : List ℕ → ℕ → S → Option (List ℕ) × S
  -- a message and the room for its payload
  pub read_message : List ℕ → ℕ → S → Option (List ℕ) × S
  pub is_handshake_finished : S → Bool
  pub dangerously_get_raw_split : S → List ℕ × List ℕ

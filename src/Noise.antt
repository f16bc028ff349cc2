-- ===== src/Noise.antt =====
-- ostp-core/src/crypto/noise.rs and aead.rs: the Noise handshake of a session and the cipher of one
-- direction, over the crates that carry them out.
use ostp.Prelude.{ℕ, List, ◌∷◌, Option, none, some, if◌then◌else◌, to_be_bytes}
use ostp.External.{Aead, Snow}
use ostp.Outcome.{Outcome, ok, err, ok_or, state, crypto}

pub data NoiseRole : Type 0 where
  initiator responder : NoiseRole

pub record NoiseSession (S : Type 0) : Type 0 where
  pub handshake : S

module _ {S : Type 0} (snow : Snow S) where
  abbrev build : NoiseRole → List ℕ → Option S
  build initiator psk = snow.build_initiator psk
  build responder psk = snow.build_responder psk

  abbrev session : Option S → Outcome (NoiseSession S)
  session none = err crypto
  session (some s) = ok (record { handshake = s })

  unfoldable pub new : NoiseRole → List ℕ → Outcome (NoiseSession S)
  new role psk = session (build role psk)

  abbrev renew : Option (List ℕ) × S → Outcome (List ℕ) × NoiseSession S
  renew (message, s) = (ok_or message crypto, record { handshake = s })

  unfoldable pub write_handshake : List ℕ → ℕ → NoiseSession S → Outcome (List ℕ) × NoiseSession S
  write_handshake payload room n = renew (snow.write_message payload room n.handshake)

  unfoldable pub read_handshake : List ℕ → ℕ → NoiseSession S → Outcome (List ℕ) × NoiseSession S
  read_handshake input room n = renew (snow.read_message input room n.handshake)

  abbrev assign : NoiseRole → List ℕ × List ℕ → List ℕ × List ℕ
  assign initiator (k0, k1) = (k0, k1)
  assign responder (k0, k1) = (k1, k0)

  -- The key to send with, and the key to receive with.
  unfoldable pub raw_split : NoiseRole → NoiseSession S → Outcome (List ℕ × List ℕ)
  raw_split role n =
      if snow.is_handshake_finished n.handshake
      then ok (assign role (snow.dangerously_get_raw_split n.handshake))
      else err state

abbrev pub nonce_from_counter : ℕ → List ℕ
nonce_from_counter counter = 0 ∷ 0 ∷ 0 ∷ 0 ∷ to_be_bytes 8 counter

-- `SessionCipher`, its key being the first argument after the crate.
unfoldable pub encrypt : Aead → List ℕ → ℕ → List ℕ → List ℕ → Outcome (List ℕ)
encrypt aead key nonce_counter plaintext aad =
    ok_or (aead.encrypt key (nonce_from_counter nonce_counter) plaintext aad) crypto

unfoldable pub decrypt : Aead → List ℕ → ℕ → List ℕ → List ℕ → Outcome (List ℕ)
decrypt aead key nonce_counter ciphertext aad =
    ok_or (aead.decrypt key (nonce_from_counter nonce_counter) ciphertext aad) crypto

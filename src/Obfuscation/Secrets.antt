-- ===== src/Obfuscation/Secrets.antt =====
-- Sizes and ranges of what ostp-core/src/crypto/obfuscation.rs derives from an access key.
use ostp.Prelude.{
  ℕ, zero, suc, ◌+◌, ◌%◌, ◌≤◌, ◌≡◌, List, [], ◌∷◌, ◌++◌, length, length-append, length-take, arith,
}
use ostp.External.{Hash}
use ostp.Obfuscation.{
  hkdf_rounds, hkdf_expand, derive_labelled, derive_all_secrets_versioned,
  derive_junk_marker_versioned,
}

module _ (hash : Hash) where
  length-hkdf_rounds :
      (fuel : ℕ) (prk info : List ℕ) (len : ℕ) (okm t : List ℕ) (counter : ℕ)
      → len ≤ length okm + fuel
      → len ≤ length (hkdf_rounds hash fuel prk info len okm t counter)
  unfolding hkdf_rounds
  length-hkdf_rounds zero prk info len okm t counter h = omega arith
  length-hkdf_rounds (suc fuel) prk info len okm t counter h =
      let block = hash.hmac prk (t ++ (info ++ (counter ∷ []))) in
      ground (
        arith,
        hash.length-hmac prk (t ++ (info ++ (counter ∷ []))),
        length-append okm block,
        length-hkdf_rounds fuel prk info len (okm ++ block) block ((counter + 1) % 256),
      )

  length-hkdf_expand : (prk info : List ℕ) (len : ℕ) → length (hkdf_expand hash prk info len) ≡ len
  unfolding hkdf_expand
  length-hkdf_expand prk info len = omega (
    arith,
    length-take len (hkdf_rounds hash len prk info len [] [] 1),
    length-hkdf_rounds len prk info len [] [] 1 (omega arith),
  )

  -- Whatever the access key and the version, a peer derives a key of 8 bytes, a PSK of 32, a junk
  -- marker of 4, and a padding range that starts at 16 to 79 bytes and is 48 to 175 bytes wide.
  pub derived_sizes :
      (access_key : List ℕ) (version window : ℕ)
      → let s = derive_all_secrets_versioned hash access_key version in
        (length s.obfuscation_key ≡ 8)
        × (length s.psk ≡ 32)
        × (length (derive_junk_marker_versioned hash access_key window version) ≡ 4)
        × (16 ≤ s.handshake_pad_min)
        × (s.handshake_pad_min ≤ 79)
        × (s.handshake_pad_min + 48 ≤ s.handshake_pad_max)
        × (s.handshake_pad_max ≤ s.handshake_pad_min + 175)
  unfolding derive_all_secrets_versioned derive_junk_marker_versioned derive_labelled
  derived_sizes access_key version window = omega (arith, length-hkdf_expand)

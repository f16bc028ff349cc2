-- ===== src/Obfuscation.antt =====
-- ostp-core/src/crypto/obfuscation.rs: key derivation and the mask over datagram headers.
pub mod Secrets
pub mod Masking
use Prim.Native.Nat.{bit_xor}
use ostp.Prelude.{
  ℕ, zero, suc, ◌+◌, ◌-◌, ◌*◌, ◌/◌, ◌%◌, ◌^◌, Bool, true, false, not, ◌&&◌, List, [], ◌∷◌, ◌++◌,
  length, take, drop, get_or, ltb, leb, if◌then◌else◌, to_be_bytes,
}
use ostp.External.{Hash}

abbrev zeros : ℕ → List ℕ
zeros zero = []
zeros (suc n) = 0 ∷ zeros n

-- `raw[i] ^= mask[i]` over the bytes of the first list.
unfoldable pub xor_bytes : List ℕ → List ℕ → List ℕ
xor_bytes [] mask = []
xor_bytes (x ∷ xs) [] = x ∷ xs
xor_bytes (x ∷ xs) (m ∷ mask) = bit_xor x m ∷ xor_bytes xs mask

-- The little-endian bytes of a word of that many bytes.
unfoldable pub to_le_bytes : ℕ → ℕ → List ℕ
to_le_bytes zero n = []
to_le_bytes (suc w) n = n % 256 ∷ to_le_bytes w (n / 256)

pub record DerivedSecrets : Type 0 where
  pub obfuscation_key : List ℕ
  pub psk : List ℕ
  pub handshake_pad_min : ℕ
  pub handshake_pad_max : ℕ

abbrev pub protocol_version : ℕ
protocol_version = 5

abbrev pub junk_marker_window_secs : ℕ
junk_marker_window_secs = 60

-- Of a time in unix seconds.
abbrev pub current_junk_window : ℕ → ℕ
current_junk_window unix = unix / junk_marker_window_secs

module _ (hash : Hash) where
  unfoldable pub hkdf_extract : List ℕ → List ℕ → List ℕ
  hkdf_extract salt ikm = hash.hmac salt ikm

  -- The loop of `hkdf_expand`, on fuel: each round appends a block of 32 bytes.
  unfoldable pub hkdf_rounds : ℕ → List ℕ → List ℕ → ℕ → List ℕ → List ℕ → ℕ → List ℕ
  hkdf_rounds zero prk info len okm t counter = okm
  hkdf_rounds (suc fuel) prk info len okm t counter =
      let block = hash.hmac prk (t ++ (info ++ (counter ∷ []))) in
      let rest = hkdf_rounds fuel prk info len (okm ++ block) block ((counter + 1) % 256) in
      if ltb (length okm) len then rest else okm

  unfoldable pub hkdf_expand : List ℕ → List ℕ → ℕ → List ℕ
  hkdf_expand prk info len = take len (hkdf_rounds len prk info len [] [] 1)

  -- The key extracted from the access key with the version as its last byte.
  unfoldable pub derive_prk : List ℕ → ℕ → List ℕ
  unfolding hkdf_extract
  derive_prk access_key version =
      hkdf_extract (take 16 (hash.sha256 access_key)) (access_key ++ (version ∷ []))

  -- The output of that many bytes for a label, and for further bytes behind the label.
  unfoldable pub derive_labelled : List ℕ → ℕ → ℕ → List ℕ → ℕ → List ℕ
  derive_labelled access_key version label more len =
      hkdf_expand (derive_prk access_key version)
        (drop 16 (hash.sha256 access_key) ++ (label ∷ more)) len

  unfoldable pub derive_all_secrets_versioned : List ℕ → ℕ → DerivedSecrets
  derive_all_secrets_versioned access_key version =
      let pad_bytes = derive_labelled access_key version 0x03 [] 2 in
      let pad_min : ℕ = 16 + get_or pad_bytes 0 0 % 64 in
      record {
        obfuscation_key = derive_labelled access_key version 0x01 [] 8;
        psk = derive_labelled access_key version 0x02 [] 32;
        handshake_pad_min = pad_min;
        handshake_pad_max = pad_min + 48 + get_or pad_bytes 1 0 % 128;
      }

  unfoldable pub derive_all_secrets : List ℕ → DerivedSecrets
  unfolding derive_all_secrets_versioned
  derive_all_secrets access_key = derive_all_secrets_versioned access_key protocol_version

  unfoldable pub derive_junk_marker_versioned : List ℕ → ℕ → ℕ → List ℕ
  derive_junk_marker_versioned access_key window version =
      derive_labelled access_key version 0x04 (to_le_bytes 8 window) 4

  unfoldable pub derive_junk_marker : List ℕ → ℕ → List ℕ
  unfolding derive_junk_marker_versioned
  derive_junk_marker access_key window =
      derive_junk_marker_versioned access_key window protocol_version

  unfoldable pub derive_obfuscation_key : List ℕ → List ℕ
  derive_obfuscation_key access_key = (derive_all_secrets access_key).obfuscation_key

  unfoldable pub derive_psk : List ℕ → List ℕ
  derive_psk access_key = (derive_all_secrets access_key).psk

  -- The first 32 bytes of the payload, with zeros behind a shorter one.
  unfoldable pub derive_payload_mask : List ℕ → List ℕ → List ℕ
  derive_payload_mask key payload = hash.hmac key (take 32 payload ++ zeros (32 - length payload))

  unfoldable pub obfuscate_packet_inplace : List ℕ → Bool → List ℕ → List ℕ
  obfuscate_packet_inplace key is_handshake raw =
      if not is_handshake && leb 12 (length raw)
      then if ltb 12 (length raw)
        then xor_bytes (take 12 raw) (derive_payload_mask key (drop 12 raw)) ++ drop 12 raw
        else raw
      else if is_handshake && ltb 6 (length raw)
      then xor_bytes (take 6 raw) (derive_payload_mask key (drop 6 raw)) ++ drop 6 raw
      else raw

  unfoldable pub deobfuscate_header_inplace : List ℕ → List ℕ → List ℕ → Bool → List ℕ
  deobfuscate_header_inplace header ciphertext key is_handshake =
      if not is_handshake then xor_bytes header (derive_payload_mask key ciphertext) else header

  unfoldable pub deobfuscate_packet_inplace : List ℕ → Bool → List ℕ → List ℕ
  unfolding deobfuscate_header_inplace
  deobfuscate_packet_inplace key is_handshake raw =
      if not is_handshake && leb 12 (length raw)
      then deobfuscate_header_inplace (take 12 raw) (drop 12 raw) key is_handshake ++ drop 12 raw
      else if is_handshake && ltb 6 (length raw)
      then xor_bytes (take 6 raw) (derive_payload_mask key (drop 6 raw)) ++ drop 6 raw
      else raw

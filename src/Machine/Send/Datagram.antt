-- ===== src/Machine/Send/Datagram.antt =====
-- The bytes and the state that `build_datagram` of ostp-core/src/protocol.rs leaves, and when it does.
use ostp.Prelude.{
  ℕ, ◌+◌, ◌≡◌, not, ◌==◌, Bool, true, false, Option, none, some, List, ◌++◌, length, to_be_bytes,
  arith, u64_max,
}
use ostp.External.{F64}
use ostp.Outcome.{ok, ok_or, ProtocolError}
use ostp.Op.{◌>>=◌, some_or_panic}
use ostp.Op.Returns.{lift-ok, guard-ok}
use ostp.Noise.{encrypt}
use ostp.Framing.{FrameKind, encode}
use ostp.Framing.Padding.{build_padding}
use ostp.Obfuscation.{obfuscate_packet_inplace}
use ostp.Machine.{ProtocolMachine, Env}
use ostp.Machine.Send.{packet_of, push_sent_frame, build_datagram}

not_full : (n : ℕ) → not (n == u64_max) ≡ true → (n == u64_max) ≡ false
not_full n h = ground arith

padding_of :
    (r : Option (List ℕ)) (padding : List ℕ) → some_or_panic r ≡ ok padding → r ≡ some padding
padding_of none padding h = absurd cc
padding_of (some a) padding h = cc

pub key_of :
    (r : Option (List ℕ)) (e : ProtocolError) (key : List ℕ) → ok_or r e ≡ ok key → r ≡ some key
key_of none e key h = absurd cc
key_of (some a) e key h = cc

module _ {F S : Type 0} ⦃f : F64 F⦄ (env : Env S) where
  abbrev pub plaintext_of : ProtocolMachine F S → ℕ → FrameKind → List ℕ → List ℕ → List ℕ
  plaintext_of m stream_id kind payload padding =
      encode (env.rng.high_byte (m.draws + 2)) (env.rng.low_byte (m.draws + 2))
        (packet_of stream_id kind payload padding)

  -- Session id, nonce and ciphertext, before they are masked.
  abbrev pub bare_datagram : ProtocolMachine F S → List ℕ → List ℕ
  bare_datagram m ciphertext =
      to_be_bytes 4 m.session_id ++ (to_be_bytes 8 m.send_nonce ++ ciphertext)

  abbrev pub masked_datagram : ProtocolMachine F S → List ℕ → List ℕ
  masked_datagram m ciphertext =
      obfuscate_packet_inplace env.hash m.obfuscation_key false (bare_datagram m ciphertext)

  abbrev pub sent_state : ℕ → List ℕ → Bool → ProtocolMachine F S → ProtocolMachine F S
  sent_state now bytes tracked m =
      push_sent_frame now m.send_nonce bytes tracked
        (record m { draws = m.draws + 3; send_nonce = m.send_nonce + 1 })

  pub build_datagram-ok :
      (now stream_id : ℕ) (kind : FrameKind) (payload : List ℕ) (tracked : Bool)
      (m : ProtocolMachine F S) (padding key ciphertext : List ℕ)
      → build_padding env.rng m.draws m.padder (length payload) ≡ some padding
      → m.send_cipher ≡ some key
      → (m.send_nonce == u64_max) ≡ false
      → encrypt env.aead key m.send_nonce
          (plaintext_of m stream_id kind payload padding)
          (to_be_bytes 4 m.session_id)
        ≡ ok ciphertext
      → build_datagram env now stream_id kind payload tracked m ≡ (
        ok (masked_datagram m ciphertext),
        sent_state now (masked_datagram m ciphertext) tracked m,
      )
  unfolding build_datagram ◌>>=◌
  build_datagram-ok now stream_id kind payload tracked m padding key ciphertext e1 e2 e3 e4 =
      rw (e1, e2, e3, e4)

  -- What a datagram that was built was built from.
  pub record Built (now stream_id : ℕ) (kind : FrameKind) (payload : List ℕ)
      (m : ProtocolMachine F S) : Type 0 where
    pub padding : List ℕ
    pub key : List ℕ
    pub ciphertext : List ℕ
    pub padded : build_padding env.rng m.draws m.padder (length payload) ≡ some padding
    pub keyed : m.send_cipher ≡ some key
    pub below : (m.send_nonce == u64_max) ≡ false
    pub sealed :
        encrypt env.aead key m.send_nonce
          (plaintext_of m stream_id kind payload padding)
          (to_be_bytes 4 m.session_id)
        ≡ ok ciphertext

  pub build_datagram-Built :
      (now stream_id : ℕ) (kind : FrameKind) (payload : List ℕ) (tracked : Bool)
      (m : ProtocolMachine F S) (bytes : List ℕ) (m' : ProtocolMachine F S)
      → build_datagram env now stream_id kind payload tracked m ≡ (ok bytes, m')
      → Built now stream_id kind payload m
  unfolding build_datagram ◌>>=◌
  build_datagram-Built now stream_id kind payload tracked m bytes m' h =
      let drawn = record m { draws = m.draws + 3 } in
      let (padding, e1, h1) = lift-ok _ _ m bytes m' h in
      let (key, e2, h2) = lift-ok _ _ drawn bytes m' h1 in
      let (fresh, h3) = guard-ok _ _ _ drawn bytes m' h2 in
      let (ciphertext, e4, h4) =
        lift-ok _ _ (record drawn { send_nonce = m.send_nonce + 1 }) bytes m' h3 in
      record {
        padding = padding;
        key = key;
        ciphertext = ciphertext;
        padded = padding_of _ padding e1;
        keyed = key_of _ _ key e2;
        below = not_full m.send_nonce fresh;
        sealed = e4;
      }

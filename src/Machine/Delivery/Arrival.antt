-- ===== src/Machine/Delivery/Arrival.antt =====
-- The arrival of a datagram: what `on_event` of ostp-core/src/protocol.rs does with an authentic data
-- frame that it waits for.
use mathlib.Core.List.{append-nil}
use ostp.Prelude.{
  ℕ, ◌+◌, ◌-◌, ◌≤◌, ◌<◌, ◌≡◌, refl, true, false, some, List, [], ◌++◌, arith, length, take, drop,
  ltb, leb, ◌==◌, u64_max, add64, from_be_bytes, to_be_bytes, le→leb, le→not-ltb, sym, inr,
  from_be_bytes-to_be_bytes, ap, subst, ◌∙◌, ◌^◌, IsByte, All,
}
use ostp.External.{F64, Hash, Aead}
use ostp.Outcome.{Outcome, ok, err, panic, crypto}
use ostp.Op.{◌>>=◌, proceed, pure}
use ostp.Noise.{encrypt, decrypt, nonce_from_counter}
use ostp.Framing.{FrameKind, encode, decode_zero_copy}
use ostp.Framing.RoundTrip.{IsWellFormed, decode_zero_copy-encode}
use ostp.Reorder.{accept, drain_all, drain}
use ostp.Machine.{ProtocolMachine, ProtocolAction, OstpState, Env, collate, OstpEvent}
use ostp.Machine.Send.{packet_of, build_ack_if_due}
use ostp.Machine.Feedback.{process_nack, process_ack}
use ostp.Machine.Gap.{is_stalled, recover_stalled_gap, put_first}
use ostp.Obfuscation.{obfuscate_packet_inplace, deobfuscate_packet_inplace}
use ostp.Obfuscation.Masking.{deobfuscate-obfuscate}
use ostp.Machine.Receive.Layout.{bare-length, bare-id, bare-nonce, bare-body, bare-bytes}
use ostp.Machine.Send.Datagram.{key_of}
use ostp.Machine.Events.{on_event, dispatch, handle_inbound}
use ostp.Machine.Receive.{
  handle_data_inbound, handle_data_inbound_frame, open_datagram, note_kind, sequence,
  accept_datagram, accept_packet,
}

packet-IsWellFormed :
    (stream_id : ℕ) (kind : FrameKind) (payload padding : List ℕ)
    → stream_id < 2 ^ 16
    → length payload < 2 ^ 32
    → length padding < 2 ^ 16
    → IsWellFormed (packet_of stream_id kind payload padding)
packet-IsWellFormed stream_id kind payload padding s p q = omega arith

pub plaintext_decodes :
    (usize_max r0 r1 stream_id : ℕ) (kind : FrameKind) (payload padding : List ℕ)
    → stream_id < 2 ^ 16
    → length payload < 2 ^ 32
    → length padding < 2 ^ 16
    → length payload + 2 ^ 17 ≤ usize_max
    → decode_zero_copy usize_max (encode r0 r1 (packet_of stream_id kind payload padding))
      ≡ ok (packet_of stream_id kind payload padding)
plaintext_decodes usize_max r0 r1 stream_id kind payload padding s p q fits =
    let packet = packet_of stream_id kind payload padding in
    subst (λ bytes. decode_zero_copy usize_max bytes ≡ ok packet) (append-nil (encode r0 r1 packet))
      (decode_zero_copy-encode usize_max r0 r1 packet []
        (packet-IsWellFormed stream_id kind payload padding s p q) (omega arith))

pub decrypt-encrypt :
    (aead : Aead) (key : List ℕ) (nonce : ℕ) (text aad c : List ℕ)
    → encrypt aead key nonce text aad ≡ ok c
    → (decrypt aead key nonce c aad ≡ ok text) × All IsByte c × (16 ≤ length c)
unfolding encrypt decrypt
decrypt-encrypt aead key nonce text aad c h =
    let sealed = key_of (aead.encrypt key (nonce_from_counter nonce) text aad) crypto c h in
    let long = aead.length-encrypt key _ text aad c sealed in
    (
      rw (aead.decrypt-encrypt key _ text aad c sealed),
      aead.encrypt-IsByte key _ text aad c sealed,
      omega (arith, long),
    )

-- The datagram arrives as it was before it was masked.
unmasked :
    (hash : Hash) (key bare : List ℕ)
    → All IsByte bare
    → 12 < length bare
    → deobfuscate_packet_inplace hash key false (obfuscate_packet_inplace hash key false bare)
      ≡ bare
unmasked hash key bare bytes long =
    deobfuscate-obfuscate hash key bare false bytes (inr (ground arith))

pub ok_value : (a b : List ℕ) → ok a ≡ ok b → a ≡ b
ok_value a b h = cc

pub same-== : (a b : ℕ) → a ≡ b → (a == b) ≡ true
same-== a b h = ground arith

in_window :
    (e max_reorder nonce n : ℕ)
    → n ≡ nonce
    → e ≡ nonce
    → nonce + max_reorder < 2 ^ 64
    → n ≤ add64 e max_reorder
in_window e max_reorder nonce n p q h = omega arith

module _ {F S : Type 0} ⦃f : F64 F⦄ (env : Env S) where
  -- An authentic data frame that is expected, while nothing is buffered and no acknowledgement due.
  pub record Arrives (now nonce stream_id : ℕ) (payload ciphertext : List ℕ)
      (m : ProtocolMachine F S) : Type 0 where
    pub key : List ℕ
    pub plaintext : List ℕ
    pub padding : List ℕ
    pub keyed : m.recv_cipher ≡ some key
    pub opens : decrypt env.aead key nonce ciphertext (to_be_bytes 4 m.session_id) ≡ ok plaintext
    pub decodes :
        decode_zero_copy env.usize_max plaintext
        ≡ ok (packet_of stream_id FrameKind.data_frame payload padding)
    pub expected : (nonce == m.expected_recv_nonce) ≡ true
    pub room : (nonce == u64_max) ≡ false
    pub room' : (m.expected_recv_nonce == u64_max) ≡ false
    pub empty : m.reorder_buffer ≡ []
    pub early : ltb (now - m.last_ack_sent) m.ack_delay ≡ true

  accept_datagram-data :
      (now nonce stream_id : ℕ) (payload ciphertext : List ℕ) (m : ProtocolMachine F S)
      → Arrives now nonce stream_id payload ciphertext m
      → ((accept_datagram env now nonce ciphertext m).0
          ≡ ok (ProtocolAction.deliver_app stream_id payload))
        × ((accept_datagram env now nonce ciphertext m).1.expected_recv_nonce
            ≡ m.expected_recv_nonce + 1)
        × ((accept_datagram env now nonce ciphertext m).1.reorder_buffer ≡ [])
  unfolding accept_datagram accept_packet open_datagram process_nack process_ack note_kind sequence
      build_ack_if_due accept drain_all drain collate ◌>>=◌
  accept_datagram-data now nonce stream_id payload ciphertext m a =
      rw (a.keyed, a.opens, a.decodes, a.expected, a.room', a.empty, a.early)
        (rw a.empty, refl, refl)

  pub inbound_established :
      (now : ℕ) (datagram raw : List ℕ) (m : ProtocolMachine F S)
      → m.state ≡ OstpState.established
      → deobfuscate_packet_inplace env.hash m.obfuscation_key false datagram ≡ raw
      → leb 4 (length raw) ≡ true
      → (from_be_bytes (take 4 raw) == m.session_id) ≡ true
      → on_event env now (OstpEvent.inbound datagram) m ≡ handle_data_inbound env now raw m
  unfolding on_event dispatch handle_inbound ◌>>=◌
  inbound_established now datagram raw m e1 e2 e3 e4 = rw (e1, e2, e3, e4)

  pub proceed-pure {κ} :
      {A : Type κ} (r : Outcome A × ProtocolMachine F S) → proceed (λ a. pure a) r ≡ r
  proceed-pure (ok a, m) = refl
  proceed-pure (err e, m) = refl
  proceed-pure (panic, m) = refl

  frame_accepted :
      (now : ℕ) (raw : List ℕ) (m : ProtocolMachine F S)
      → m.reorder_buffer ≡ []
      → leb 12 (length raw) ≡ true
      → ltb (from_be_bytes (take 8 (drop 4 raw))) m.expected_recv_nonce ≡ false
      → ltb (add64 m.expected_recv_nonce m.max_reorder) (from_be_bytes (take 8 (drop 4 raw)))
        ≡ false
      → handle_data_inbound env now raw m
        ≡ accept_datagram env now (from_be_bytes (take 8 (drop 4 raw))) (drop 12 raw) m
  unfolding handle_data_inbound handle_data_inbound_frame recover_stalled_gap is_stalled put_first
      ◌>>=◌
  frame_accepted now raw m empty long new near = rw (empty, long, new, near) (proceed-pure _)

  pub bare-Arrives :
      (now id nonce stream_id : ℕ) (payload c : List ℕ) (b : ProtocolMachine F S)
      → b.state ≡ OstpState.established
      → b.session_id ≡ id
      → id < 2 ^ 32
      → nonce < u64_max
      → nonce + b.max_reorder < 2 ^ 64
      → b.expected_recv_nonce ≡ nonce
      → All IsByte c
      → 16 ≤ length c
      → Arrives now nonce stream_id payload c b
      → let r =
          on_event env now
            (OstpEvent.inbound (
              obfuscate_packet_inplace env.hash b.obfuscation_key false
                (to_be_bytes 4 id ++ (to_be_bytes 8 nonce ++ c))))
            b in
        (r.0 ≡ ok (ProtocolAction.deliver_app stream_id payload))
        × (r.1.expected_recv_nonce ≡ nonce + 1)
        × (r.1.reorder_buffer ≡ [])
  bare-Arrives now id nonce stream_id payload c b est ids small room wide step bytes long a =
      let bare = to_be_bytes 4 id ++ (to_be_bytes 8 nonce ++ c) in
      let len = bare-length id nonce c in
      let n : from_be_bytes (take 8 (drop 4 bare)) ≡ nonce =
        ap from_be_bytes (bare-nonce id nonce c)
        ∙ from_be_bytes-to_be_bytes 8 nonce (omega arith) in
      let i : from_be_bytes (take 4 bare) ≡ id =
        ap from_be_bytes (bare-id id nonce c) ∙ from_be_bytes-to_be_bytes 4 id (omega arith) in
      let inside =
        inbound_established now (obfuscate_packet_inplace env.hash b.obfuscation_key false bare)
          bare b est
          (unmasked env.hash b.obfuscation_key bare (bare-bytes id nonce c bytes)
            (omega (arith, len)))
          (le→leb 4 (length bare) (omega (arith, len))) (same-== _ _ (i ∙ sym ids)) in
      let taken =
        frame_accepted now bare b a.empty (le→leb 12 (length bare) (omega (arith, len)))
          (le→not-ltb _ _ (omega (arith, n, step)))
          (le→not-ltb _ _ (in_window b.expected_recv_nonce b.max_reorder nonce _ n step wide)) in
      let place : accept_datagram env now (from_be_bytes (take 8 (drop 4 bare))) (drop 12 bare) b
          ≡ accept_datagram env now nonce c b =
        rw (n, bare-body id nonce c) in
      let d = accept_datagram-data now nonce stream_id payload c b a in
      rw (inside ∙ taken ∙ place) (d.0, d.1 ∙ ap (λ t. t + 1) step, d.2)

-- ===== src/Machine/Delivery.antt =====
-- From one end to the other: what `build_datagram` of ostp-core/src/protocol.rs makes of a payload, and
-- what the other end's `on_event` makes of that.
pub mod Arrival
use ostp.Prelude.{
  ℕ, ◌+◌, ◌-◌, ◌≤◌, ◌<◌, ◌≡◌, true, false, List, [], arith, length, ◌==◌, u64_max, to_be_bytes,
  lt→ltb, sym, ap, ◌∙◌, ◌^◌,
}
use ostp.External.{F64, Rng}
use ostp.Outcome.{ok}
use ostp.Framing.{FrameKind}
use ostp.Framing.Padding.{build_padding_fits}
use ostp.Machine.{ProtocolMachine, ProtocolAction, OstpState, Env, OstpEvent}
use ostp.Obfuscation.{obfuscate_packet_inplace}
use ostp.Machine.Send.Datagram.{
  plaintext_of, masked_datagram, bare_datagram, build_datagram-ok, build_datagram-Built,
}
use ostp.Machine.Send.{build_datagram, push_sent_frame}
use ostp.Machine.Events.{on_event}
use ostp.Machine.Delivery.Arrival.{
  plaintext_decodes, decrypt-encrypt, ok_value, same-==, Arrives, bare-Arrives,
}

-- The other end of a session: it waits for the next datagram of `a`, with nothing buffered.
pub record IsPeer {F S : Type 0} (a b : ProtocolMachine F S) : Type 0 where
  pub established : b.state ≡ OstpState.established
  pub same_session : b.session_id ≡ a.session_id
  pub same_mask : b.obfuscation_key ≡ a.obfuscation_key
  pub same_key : b.recv_cipher ≡ a.send_cipher
  pub in_step : b.expected_recv_nonce ≡ a.send_nonce
  pub empty : b.reorder_buffer ≡ []

-- The sizes that fit their fields.
pub record IsSized {F S : Type 0} (usize_max stream_id payload_len : ℕ) (a b : ProtocolMachine F S)
    : Type 0 where
  pub stream_word : stream_id < 2 ^ 16
  pub payload_word : payload_len < 2 ^ 32
  pub packet_word : a.padder.mtu_hint < 2 ^ 16
  pub session_word : a.session_id < 2 ^ 32
  pub nonce_room : a.send_nonce < u64_max
  pub window_room : a.send_nonce + b.max_reorder < 2 ^ 64
  pub memory : payload_len + 2 ^ 17 ≤ usize_max

module _ {F S : Type 0} ⦃f : F64 F⦄ (env : Env S) where
  -- What one end sends the other end delivers: a data datagram that `a` builds from a payload, taken
  -- by the session `b` that has the same keys, waits for that nonce, has nothing buffered and no
  -- acknowledgement due, comes out as exactly that payload on that stream; `b` then waits for the
  -- next nonce of `a`, again with nothing buffered.
  pub datagram_delivered :
      (rng : Rng) (now_a now_b stream_id : ℕ) (payload bytes : List ℕ)
      (a a' b : ProtocolMachine F S)
      → build_datagram env now_a stream_id FrameKind.data_frame payload true a ≡ (ok bytes, a')
      → IsPeer a b
      → IsSized env.usize_max stream_id (length payload) a b
      → now_b - b.last_ack_sent < b.ack_delay
      → let r = on_event (record env { rng = rng }) now_b (OstpEvent.inbound bytes) b in
        (r.0 ≡ ok (ProtocolAction.deliver_app stream_id payload))
        × (r.1.expected_recv_nonce ≡ a'.send_nonce)
        × (r.1.reorder_buffer ≡ [])
  unfolding push_sent_frame
  datagram_delivered rng now_a now_b stream_id payload bytes a a' b sent peer sized early =
      let built =
        build_datagram-Built env now_a stream_id FrameKind.data_frame payload true a bytes a'
          sent in
      let done =
        build_datagram-ok env now_a stream_id FrameKind.data_frame payload true a built.padding
          built.key built.ciphertext built.padded built.keyed built.below built.sealed in
      let same_bytes : bytes ≡ masked_datagram env a built.ciphertext =
        ok_value bytes (masked_datagram env a built.ciphertext) (ap (λ r. r.0) (sym sent ∙ done)) in
      let next : a'.send_nonce ≡ a.send_nonce + 1 = ap (λ r. r.1.send_nonce) (sym sent ∙ done) in
      let opened =
        decrypt-encrypt env.aead built.key a.send_nonce _ (to_be_bytes 4 a.session_id)
          built.ciphertext built.sealed in
      let padded =
        build_padding_fits env.rng a.draws a.padder (length payload) built.padding built.padded in
      let arrives : Arrives (record env { rng = rng }) now_b a.send_nonce stream_id payload
          built.ciphertext b =
        record {
          key = built.key;
          plaintext = plaintext_of env a stream_id FrameKind.data_frame payload built.padding;
          padding = built.padding;
          keyed = peer.same_key ∙ built.keyed;
          opens = rw peer.same_session (opened.0);
          decodes =
              plaintext_decodes env.usize_max _ _ stream_id FrameKind.data_frame payload
                built.padding sized.stream_word sized.payload_word
                (omega (arith, padded.0, sized.packet_word)) sized.memory;
          expected = same-== a.send_nonce b.expected_recv_nonce (sym peer.in_step);
          room = built.below;
          room' = ground (arith, peer.in_step, sized.nonce_room);
          empty = peer.empty;
          early = lt→ltb _ _ early;
        } in
      let at =
        bare-Arrives (record env { rng = rng }) now_b a.session_id a.send_nonce stream_id payload
          built.ciphertext b peer.established peer.same_session sized.session_word sized.nonce_room
          sized.window_room peer.in_step opened.1 opened.2 arrives in
      let mask : bytes
          ≡ obfuscate_packet_inplace env.hash b.obfuscation_key false
              (bare_datagram env a built.ciphertext) =
        same_bytes
        ∙ ap (λ k. obfuscate_packet_inplace env.hash k false (bare_datagram env a built.ciphertext))
            (sym peer.same_mask) in
      rw mask (at.0, at.1 ∙ sym next, at.2)

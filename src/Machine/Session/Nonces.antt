-- ===== src/Machine/Session/Nonces.antt =====
-- The nonces that a session of ostp-core/src/protocol.rs encrypts with.
use ostp.Prelude.{
  ℕ, ◌+◌, ◌≤◌, ◌<◌, ◌≡◌, refl, sym, ap, ◌∙◌, Bool, List, arith, some, false, ◌++◌, to_be_bytes,
}
use ostp.External.{F64}
use ostp.Noise.{encrypt, nonce_from_counter}
use ostp.Obfuscation.{obfuscate_packet_inplace}
use ostp.Outcome.{ok}
use ostp.History.Rising.{
  Rising, Rising-raise, push_capped-Rising, lookup_sent_frame-Rising, retain_unacked-Rising,
  evict_zombies-Rising, mark_due-Rising, retransmit-Rising,
}
use ostp.Machine.{ProtocolMachine, ProtocolConfig, Env, new, on_path_change, set_session_keys}
use ostp.Framing.{FrameKind}
use ostp.Machine.Send.{push_sent_frame, build_datagram}
use ostp.Machine.Send.Datagram.{build_datagram-ok, build_datagram-Built, plaintext_of, key_of}
use ostp.Machine.Feedback.{drop_acked_frames}
use ostp.Machine.Receive.{note_kind}
use ostp.Machine.Tick.{evict, scan}
use ostp.Machine.Steady.{Sends}
use ostp.Machine.Session.{Steady, Input, run, run-keeps, new-run-keeps}

-- The history holds rising nonces, all below the next one.
abbrev pub IsFresh : {F S : Type 0} → ProtocolMachine F S → Type 0
IsFresh m = Rising 0 m.send_nonce m.sent_history

ok_injective : {A : Type 0} {a b : A} → ok a ≡ ok b → a ≡ b
ok_injective h = cc

module _ {F S : Type 0} ⦃f : F64 F⦄ where
  IsFresh-Sends : Sends {F = F} {S = S} IsFresh
  unfolding push_sent_frame
  IsFresh-Sends = record {
    draw = λ m n h. h;
    count =
        λ m h fresh. Rising-raise 0 m.send_nonce (m.send_nonce + 1) m.sent_history (omega arith) h;
    send = λ now bytes tracked m h fresh.
        push_capped-Rising m.max_sent_history 0 m.send_nonce _ m.sent_history refl h;
    acknowledge = λ pending stamp m h. h;
  }

  pub IsFresh-Steady : Steady {F = F} {S = S} IsFresh
  unfolding drop_acked_frames note_kind evict scan on_path_change set_session_keys
  IsFresh-Steady = record {
    sends = IsFresh-Sends;
    hears = record {
      authenticate = λ count highest m h. h;
      lose = λ now bytes m h. h;
      look_up = λ now nonce m bytes frames e h.
          lookup_sent_frame-Rising now nonce 0 m.send_nonce m.sent_history bytes frames e h;
      drop_acked = λ now ranges m h. retain_unacked-Rising ranges 0 m.send_nonce m.sent_history h;
      note = λ kind m h. h;
    };
    receives = record {
      skip = λ now m h. h;
      insert = λ now nonce action m le h. h;
      nacked = λ now m h. h;
      give_up = λ m h. evict_zombies-Rising _ 0 m.send_nonce m.sent_history h;
      retry = λ now m h. retransmit-Rising now _ _ 0 m.send_nonce m.sent_history h;
    };
    shakes = record { draw = λ m n h. h; shake = λ m noise h. h };
    moves = record {
      begin = λ m e h. h;
      establish = λ send_key recv_key m e h. h;
      start_close = λ m e h. h;
      finish = λ m h. h;
    };
    change_path = λ now m h. mark_due-Rising _ 0 m.send_nonce m.sent_history h;
    rekey = λ session_id key m h. h;
  }

  -- In whatever order events, moves and new keys come to a new session, the frames it remembers have
  -- rising nonces, so no two the same, and all are below the nonce of the next datagram.
  pub sent_nonces_rise :
      (env : Env S) (config : ProtocolConfig) (now : ℕ) (inputs : List Input)
      (m : ProtocolMachine F S)
      → new env config now ≡ ok m
      → IsFresh (run env inputs m)
  sent_nonces_rise env config now inputs m e =
      new-run-keeps env IsFresh IsFresh-Steady config now inputs m (λ noise. omega arith) e

  Counted-Steady : (n : ℕ) → Steady {F = F} {S = S} (λ m. n ≤ m.send_nonce)
  unfolding drop_acked_frames note_kind evict scan on_path_change set_session_keys push_sent_frame
  Counted-Steady n = record {
    sends = record {
      draw = λ m n h. h;
      count = λ m h fresh. omega arith;
      send = λ now bytes tracked m h fresh. omega arith;
      acknowledge = λ pending stamp m h. h;
    };
    hears = record {
      authenticate = λ count highest m h. h;
      lose = λ now bytes m h. h;
      look_up = λ now nonce m bytes frames e h. h;
      drop_acked = λ now ranges m h. h;
      note = λ kind m h. h;
    };
    receives = record {
      skip = λ now m h. h;
      insert = λ now nonce action m le h. h;
      nacked = λ now m h. h;
      give_up = λ m h. h;
      retry = λ now m h. h;
    };
    shakes = record { draw = λ m n h. h; shake = λ m noise h. h };
    moves = record {
      begin = λ m e h. h;
      establish = λ send_key recv_key m e h. h;
      start_close = λ m e h. h;
      finish = λ m h. h;
    };
    change_path = λ now m h. h;
    rekey = λ session_id key m h. h;
  }

  -- The datagram carries the nonce, and its body is encrypted under it with the session's key.
  pub record IsSealed (env : Env S) (nonce : ℕ) (m : ProtocolMachine F S) (bytes : List ℕ)
      : Type 0 where
    pub key : List ℕ
    pub plaintext : List ℕ
    pub ciphertext : List ℕ
    pub keyed : m.send_cipher ≡ some key
    pub sealed :
        env.aead.encrypt key (nonce_from_counter nonce) plaintext (to_be_bytes 4 m.session_id)
        ≡ some ciphertext
    pub written :
        bytes
        ≡ obfuscate_packet_inplace env.hash m.obfuscation_key false
            (to_be_bytes 4 m.session_id ++ (to_be_bytes 8 nonce ++ ciphertext))

  build_datagram-IsSealed :
      (env : Env S) (now stream_id : ℕ) (kind : FrameKind) (payload : List ℕ) (tracked : Bool)
      (m : ProtocolMachine F S) (bytes : List ℕ) (m' : ProtocolMachine F S)
      → build_datagram env now stream_id kind payload tracked m ≡ (ok bytes, m')
      → IsSealed env m.send_nonce m bytes × (m'.send_nonce ≡ m.send_nonce + 1)
  unfolding push_sent_frame encrypt
  build_datagram-IsSealed env now stream_id kind payload tracked m bytes m' h =
      let b = build_datagram-Built env now stream_id kind payload tracked m bytes m' h in
      let done =
        build_datagram-ok env now stream_id kind payload tracked m b.padding b.key b.ciphertext
          b.padded b.keyed b.below b.sealed in
      (
        record {
          key = b.key;
          plaintext = plaintext_of env m stream_id kind payload b.padding;
          ciphertext = b.ciphertext;
          keyed = b.keyed;
          sealed = key_of _ _ b.ciphertext b.sealed;
          written = ok_injective (ap (λ r. r.0) (sym h ∙ done));
        },
        ap (λ r. r.1.send_nonce) (sym h ∙ done),
      )

  -- Of two datagrams that a session builds, with whatever happens to it between them, each carries its
  -- nonce and is encrypted under it, and the later one has the greater nonce: no nonce is used again.
  pub nonces_never_repeat :
      (env : Env S) (now stream_id : ℕ) (kind : FrameKind) (payload : List ℕ) (tracked : Bool)
      (m : ProtocolMachine F S) (bytes : List ℕ) (m' : ProtocolMachine F S) (inputs : List Input)
      (now2 stream_id2 : ℕ) (kind2 : FrameKind) (payload2 : List ℕ) (tracked2 : Bool)
      (bytes2 : List ℕ) (m2 : ProtocolMachine F S)
      → build_datagram env now stream_id kind payload tracked m ≡ (ok bytes, m')
      → build_datagram env now2 stream_id2 kind2 payload2 tracked2 (run env inputs m')
        ≡ (ok bytes2, m2)
      → (nonce : ℕ) × (nonce2 : ℕ) × IsSealed env nonce m bytes
        × IsSealed env nonce2 (run env inputs m') bytes2
        × (nonce < nonce2)
  nonces_never_repeat env now stream_id kind payload tracked m bytes m' inputs now2 stream_id2 kind2
        payload2 tracked2 bytes2 m2 h h2 =
      let first = build_datagram-IsSealed env now stream_id kind payload tracked m bytes m' h in
      let second =
        build_datagram-IsSealed env now2 stream_id2 kind2 payload2 tracked2 (run env inputs m')
          bytes2 m2 h2 in
      let later =
        run-keeps env (λ m. m'.send_nonce ≤ m.send_nonce) (Counted-Steady m'.send_nonce) inputs m'
          (omega arith) in
      (
        m.send_nonce,
        (run env inputs m').send_nonce,
        first.0,
        second.0,
        omega (arith, first.1, later),
      )

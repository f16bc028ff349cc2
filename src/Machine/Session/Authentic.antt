-- ===== src/Machine/Session/Authentic.antt =====
-- What a datagram must be for a session of ostp-core/src/protocol.rs to raise the highest nonce that it
-- authenticated: the nonce by which the server follows a moving client.
use ostp.Prelude.{
  ℕ, ◌≤◌, ◌<◌, ◌≡◌, refl, subst, sym, ◌∙◌, ap, false, Option, none, some, List, length, take, drop,
  ltb, add64, from_be_bytes, to_be_bytes, ◌⊎◌, inl, inr, Bool-cases, arith,
}
use ostp.External.{F64}
use ostp.Op.{◌>>=◌}
use ostp.Op.Keeps.{bind-at, bind-from, get-keeps, guard-keeps}
use ostp.Noise.{decrypt, nonce_from_counter}
use ostp.Obfuscation.{deobfuscate_packet_inplace}
use ostp.Machine.{ProtocolMachine, OstpEvent, OstpState, Env}
use ostp.Machine.Send.{push_sent_frame}
use ostp.Machine.Feedback.{drop_acked_frames}
use ostp.Machine.Gap.{is_stalled, recover_stalled_gap}
use ostp.Machine.Receive.{
  raise_to, note_kind, open_datagram, accept_datagram, handle_data_inbound_frame,
  handle_data_inbound,
}
use ostp.Machine.Events.{dispatch, in_handshake, inbound_at, handle_inbound, on_event}
use ostp.Machine.Tick.{evict}
use ostp.Machine.Steady.{Sends, Heeds, Receives}
use ostp.Machine.Steady.Receiving.{answer_duplicate-Keeps, answer_far-Keeps, accepted-keeps}

-- Above every nonce so far.
abbrev pub IsAbove : Option ℕ → ℕ → Type 0
IsAbove none nonce = Unit
IsAbove (some highest) nonce = highest < nonce

abbrev pub nonce_of : List ℕ → ℕ
nonce_of raw = from_be_bytes (take 8 (drop 4 raw))

raised : (n : ℕ) (h : Option ℕ) → (raise_to n h ≡ h) ⊎ IsAbove h n
raised n none = inr tt
raised n (some k) = elim (Bool-cases (ltb k n)) [
  | inl q ↦ inr (ground (arith, q))
  | inr q ↦ inl (rw q refl)
]

module _ {F S : Type 0} ⦃f : F64 F⦄ where
  -- The datagram decrypts under the session's key and its own nonce.
  pub record IsAuthentic (env : Env S) (raw : List ℕ) (m : ProtocolMachine F S) : Type 0 where
    pub key : List ℕ
    pub text : List ℕ
    pub keyed : m.recv_cipher ≡ some key
    pub opened :
        env.aead.decrypt key
          (nonce_from_counter (nonce_of raw))
          (drop 12 raw)
          (to_be_bytes 4 m.session_id)
        ≡ some text

  -- It does, and no datagram before it had as great a nonce.
  abbrev pub IsNewest : Env S → List ℕ → ProtocolMachine F S → Type 0
  IsNewest env raw m =
      (12 ≤ length raw)
      × IsAuthentic env raw m
      × IsAbove m.highest_authenticated_recv_nonce (nonce_of raw)

module _ {F S : Type 0} ⦃f : F64 F⦄ (env : Env S) (raw : List ℕ) (m : ProtocolMachine F S) where
  -- The highest nonce is the one before, or the datagram is the newest.
  abbrev Follows : ProtocolMachine F S → Type 0
  Follows m' =
      (m'.highest_authenticated_recv_nonce ≡ m.highest_authenticated_recv_nonce)
      ⊎ IsNewest env raw m

  -- What the sequence does not change before the datagram is opened.
  pub record Same (m' : ProtocolMachine F S) : Type 0 where
    pub highest : m'.highest_authenticated_recv_nonce ≡ m.highest_authenticated_recv_nonce
    pub cipher : m'.recv_cipher ≡ m.recv_cipher
    pub session : m'.session_id ≡ m.session_id

  Follows-Sends : Sends Follows
  unfolding push_sent_frame
  Follows-Sends = record {
    draw = λ m' n h. h;
    count = λ m' h fresh. h;
    send = λ now bytes tracked m' h fresh. h;
    acknowledge = λ pending stamp m' h. h;
  }

  Follows-Heeds : Heeds Follows
  unfolding drop_acked_frames note_kind
  Follows-Heeds = record {
    lose = λ now bytes m' h. h;
    look_up = λ now nonce m' bytes frames e h. h;
    drop_acked = λ now ranges m' h. h;
    note = λ kind m' h. h;
  }

  Follows-Receives : Receives Follows
  unfolding evict
  Follows-Receives = record {
    skip = λ now m' h. h;
    insert = λ now nonce action m' le h. h;
    nacked = λ now m' h. h;
    give_up = λ m' h. h;
    retry = λ now m' h. h;
  }

  -- The same while the sequence waits for the nonce.
  abbrev Opening : ProtocolMachine F S → Type 0
  Opening m' = Follows m' × (m'.expected_recv_nonce ≤ nonce_of raw)

  open-Opening :
      (m' : ProtocolMachine F S)
      → 12 ≤ length raw
      → Same m'
      → m'.expected_recv_nonce ≤ nonce_of raw
      → Opening ((open_datagram env (nonce_of raw) (drop 12 raw) m').1)
  unfolding open_datagram decrypt ◌>>=◌
  open-Opening m' long same le = keyed m'.recv_cipher refl
    where
      follows :
          (key text : List ℕ)
          → m'.recv_cipher ≡ some key
          → env.aead.decrypt key
              (nonce_from_counter (nonce_of raw))
              (drop 12 raw)
              (to_be_bytes 4 m'.session_id)
            ≡ some text
          → (raise_to (nonce_of raw) m'.highest_authenticated_recv_nonce
              ≡ m'.highest_authenticated_recv_nonce)
            ⊎ IsAbove m'.highest_authenticated_recv_nonce (nonce_of raw)
          → (raise_to (nonce_of raw) m'.highest_authenticated_recv_nonce
              ≡ m.highest_authenticated_recv_nonce)
            ⊎ IsNewest env raw m
      follows key text e d (inl h) = inl (h ∙ same.highest)
      follows key text e d (inr h) = inr (
        long,
        record {
          key = key;
          text = text;
          keyed = sym same.cipher ∙ e;
          opened = rw (sym same.session) d;
        },
        subst (λ o. IsAbove o (nonce_of raw)) same.highest h,
      )

      opened :
          (key : List ℕ) (t : Option (List ℕ))
          → m'.recv_cipher ≡ some key
          → env.aead.decrypt key
              (nonce_from_counter (nonce_of raw))
              (drop 12 raw)
              (to_be_bytes 4 m'.session_id)
            ≡ t
          → Opening ((open_datagram env (nonce_of raw) (drop 12 raw) m').1)
      opened key none e d = rw (e, d) (inl same.highest, le)
      opened key (some text) e d = rw (e, d) (follows key text e d (raised (nonce_of raw) _), le)

      keyed :
          (c : Option (List ℕ))
          → m'.recv_cipher ≡ c
          → Opening ((open_datagram env (nonce_of raw) (drop 12 raw) m').1)
      keyed none e = rw e (inl same.highest, le)
      keyed (some key) e = opened key _ e refl

  frame-Follows :
      (now : ℕ) (m' : ProtocolMachine F S)
      → Same m'
      → Follows ((handle_data_inbound_frame env now raw m').1)
  unfolding handle_data_inbound_frame accept_datagram
  frame-Follows now m' same =
      let before : Follows m' = inl same.highest in
      get-keeps Follows _ _ (
        guard-keeps Follows _ _ _ _ before λ long.
          elim (Bool-cases (ltb (nonce_of raw) m'.expected_recv_nonce)) [
            | inl q ↦ rw q (answer_duplicate-Keeps env Follows Follows-Sends now m' before)
            | inr q ↦
                elim (Bool-cases
                  (ltb (add64 m'.expected_recv_nonce m'.max_reorder) (nonce_of raw))) [
                    | inl r ↦ rw (q, r) (answer_far-Keeps env Follows Follows-Sends now m' before)
                    | inr r ↦
                        rw (q, r)
                          (bind-from Opening Follows (λ m'' h. h.0) _ _ m'
                            (open-Opening m' (ground (arith, long)) same (ground (arith, q)))
                            (λ packet m'' h.
                              accepted-keeps env Follows Follows-Sends Follows-Heeds
                                Follows-Receives now (nonce_of raw) packet m'' h.1 h.0))
                  ]
          ])

  recovered-Same : (now : ℕ) → Same ((recover_stalled_gap now m).1)
  unfolding recover_stalled_gap
  recovered-Same now = elim (Bool-cases (is_stalled now m)) [
    | inl q ↦ rw q (record { highest = refl; cipher = refl; session = refl })
    | inr q ↦ rw q (record { highest = refl; cipher = refl; session = refl })
  ]

  inbound-Follows : (now : ℕ) → Follows ((handle_data_inbound env now raw m).1)
  unfolding handle_data_inbound
  inbound-Follows now =
      bind-at Follows _ _ _ (frame-Follows now _ (recovered-Same now)) (λ result m' h. h)

  handled-Follows :
      (now : ℕ) (packet : List ℕ)
      → deobfuscate_packet_inplace env.hash m.obfuscation_key (in_handshake m.state) packet ≡ raw
      → m.state ≡ OstpState.established
      → Follows ((handle_inbound env now packet m).1)
  unfolding handle_inbound
  handled-Follows now packet bare e = get-keeps Follows _ m (
      rw bare (
        guard-keeps Follows _ _ _ _ (inl refl) λ long.
          guard-keeps Follows _ _ _ _ (inl refl) λ ours.
            subst (λ s. Follows ((inbound_at env now raw s m).1)) (sym e) (inbound-Follows now)))

module _ {F S : Type 0} ⦃f : F64 F⦄ where
  -- Whatever a datagram does to an established session, the highest nonce stays unless the datagram
  -- is the newest.
  pub established-Follows :
      (env : Env S) (now : ℕ) (packet : List ℕ) (m : ProtocolMachine F S)
      → m.state ≡ OstpState.established
      → let raw = deobfuscate_packet_inplace env.hash m.obfuscation_key false packet in
        ((on_event env now (OstpEvent.inbound packet) m).1.highest_authenticated_recv_nonce
          ≡ m.highest_authenticated_recv_nonce)
        ⊎ IsNewest env raw m
  unfolding on_event dispatch
  established-Follows env now packet m e =
      let raw = deobfuscate_packet_inplace env.hash m.obfuscation_key false packet in
      let bare =
        ap (λ s. deobfuscate_packet_inplace env.hash m.obfuscation_key (in_handshake s) packet) e in
      subst (λ s. Follows env raw m ((dispatch env now m.role s (OstpEvent.inbound packet) m).1))
        (sym e) (handled-Follows env raw m now packet bare e)

-- ===== src/Dispatcher/Known.antt =====
-- Datagrams of sessions that ostp-server/src/dispatcher.rs knows: how `on_datagram` finds the session by
-- address or by header, what the session does with the datagram, and where it moves to.
use ostp.Prelude.{
  ℕ, ◌-◌, Bool, true, false, not, ◌&&◌, Option, none, some, List, [], ◌∷◌, ◌++◌, length, take, drop,
  leb, ◌==◌, if◌then◌else◌, from_be_bytes,
}
use ostp.External.{F64, Hash}
use ostp.Outcome.{Outcome, ok, err, panic}
use ostp.Obfuscation.{deobfuscate_header_inplace}
use ostp.Machine.{ProtocolMachine, ProtocolAction, Actions, OstpEvent, Env}
use ostp.Machine.Events.{on_event}
use ostp.Dict.{Key, Dict, lookup, insert, remove, nat_key, bytes_key}
use ostp.Users.{get_or_create_user_stats, track_user_bytes_up, is_admitted, disconnect_user}
use ostp.Dispatcher.{Dispatcher, PeerState, DispatchOutcome, Clock}

-- `collect_action`: the datagrams of an action, and its payloads with the session.
unfoldable mutual
  pub responses_of : ProtocolAction → List (List ℕ)
  responses_of (ProtocolAction.send_datagram frame) = frame ∷ []
  responses_of (ProtocolAction.multiple list) = responses_among list
  responses_of (ProtocolAction.deliver_app stream_id payload) = []
  responses_of (ProtocolAction.handshake_payload payload response) = []
  responses_of ProtocolAction.noop = []

  pub responses_among : Actions → List (List ℕ)
  responses_among Actions.end = []
  responses_among (Actions.also a list) = responses_of a ++ responses_among list

unfoldable mutual
  pub payloads_of : ℕ → ProtocolAction → List (ℕ × ℕ × List ℕ)
  payloads_of sid (ProtocolAction.deliver_app stream_id payload) = (sid, stream_id, payload) ∷ []
  payloads_of sid (ProtocolAction.multiple list) = payloads_among sid list
  payloads_of sid (ProtocolAction.send_datagram frame) = []
  payloads_of sid (ProtocolAction.handshake_payload payload response) = []
  payloads_of sid ProtocolAction.noop = []

  pub payloads_among : ℕ → Actions → List (ℕ × ℕ × List ℕ)
  payloads_among sid Actions.end = []
  payloads_among sid (Actions.also a list) = payloads_of sid a ++ payloads_among sid list

-- Whether the highest authenticated nonce rose: there is one, and it is not the one before.
abbrev pub raised_highest : Option ℕ → Option ℕ → Bool
raised_highest before none = false
raised_highest none (some after) = true
raised_highest (some before) (some after) = not (after == before)

-- A token bucket after that many nanoseconds, with a rate for a second that is its size too.
abbrev pub refill : {F : Type 0} ⦃f : F64 F⦄ → F → ℕ → F → F
refill ⦃f⦄ rate elapsed tokens = f.fmin (f.add tokens (f.mul (f.as_secs elapsed) rate)) rate

module _ {A F S : Type 0} ⦃k : Key A⦄ ⦃f : F64 F⦄ where
  -- The header, unmasked with the key of the session, names the session.
  unfoldable pub header_matches : Hash → List ℕ → ℕ → PeerState A F S → Bool
  header_matches hash packet sid peer_state =
      leb 12 (length packet)
      && (from_be_bytes (
            take 4 (
              deobfuscate_header_inplace hash (take 12 packet) (drop 12 packet)
                peer_state.obfuscation_key false))
          == sid)

  abbrev pub if_matches : Hash → List ℕ → ℕ → Option (PeerState A F S) → Option ℕ
  if_matches hash packet sid none = none
  if_matches hash packet sid (some peer_state) =
      if header_matches hash packet sid peer_state then some sid else none

  abbrev pub session_at : Hash → List ℕ → Dispatcher A F S → Option ℕ → Option ℕ
  session_at hash packet d none = none
  session_at hash packet d (some sid) = if_matches hash packet sid (lookup sid d.peer_machines)

  unfoldable pub roam_among : Hash → List ℕ → Dict ℕ (PeerState A F S) → Option ℕ
  roam_among hash packet [] = none
  roam_among hash packet ((sid, peer_state) ∷ rest) =
      if header_matches hash packet sid peer_state then some sid else roam_among hash packet rest

  -- The walk over all sessions, within the token bucket.
  unfoldable pub try_roam : Hash → Clock → List ℕ → Dispatcher A F S → Option ℕ × Dispatcher A F S
  try_roam hash clock packet d =
      let tokens = refill (f.of_nat 50) (clock.instant - d.last_token_regen) d.roaming_tokens in
      if f.ge tokens (f.of_nat 1)
      then (
        roam_among hash packet d.peer_machines,
        record d { last_token_regen = clock.instant; roaming_tokens = f.sub tokens (f.of_nat 1) },
      )
      else (none, record d { last_token_regen = clock.instant; roaming_tokens = tokens })

  abbrev pub or_roam :
      Hash → Clock → List ℕ → Dispatcher A F S → Option ℕ → Option ℕ × Dispatcher A F S
  or_roam hash clock packet d (some sid) = (some sid, d)
  or_roam hash clock packet d none = try_roam hash clock packet d

  -- The session of a datagram: that of its address, or the one that its header names.
  unfoldable pub find_session :
      Hash → Clock → A → List ℕ → Dispatcher A F S → Option ℕ × Dispatcher A F S
  unfolding try_roam
  find_session hash clock peer packet d =
      or_roam hash clock packet d (session_at hash packet d (lookup peer d.addr_to_session))

  abbrev pub drop_found : ℕ → ℕ → Option (PeerState A F S) → Dispatcher A F S → Dispatcher A F S
  drop_found unix sid none d = d
  drop_found unix sid (some peer_state) d = record d {
    peer_machines = remove sid d.peer_machines;
    addr_to_session = remove peer_state.last_addr d.addr_to_session;
    users = disconnect_user unix peer_state.access_key d.users;
  }

  unfoldable pub drop_session : ℕ → ℕ → Dispatcher A F S → Dispatcher A F S
  drop_session unix sid d = drop_found unix sid (lookup sid d.peer_machines) d

  -- The address moves with a datagram that raised the highest nonce.
  unfoldable pub follow :
      A → ℕ → Bool → PeerState A F S → Dispatcher A F S → PeerState A F S × Dispatcher A F S
  follow peer sid raised peer_state d =
      if not (k.beq peer_state.last_addr peer) && raised
      then (
        record peer_state { last_addr = peer },
        record d {
          addr_to_session = insert peer sid (remove peer_state.last_addr d.addr_to_session);
        },
      )
      else (peer_state, d)

  abbrev pub touch : Clock → A → PeerState A F S → PeerState A F S
  touch clock peer peer_state =
      if k.beq peer_state.last_addr peer
      then record peer_state { last_seen = clock.instant }
      else peer_state

  abbrev pub put_peer : ℕ → PeerState A F S → Dispatcher A F S → Dispatcher A F S
  put_peer sid peer_state d = record d { peer_machines = insert sid peer_state d.peer_machines }

  -- After the session took the datagram.
  unfoldable pub after_event :
      Clock
      → A
      → ℕ
      → PeerState A F S
      → Outcome ProtocolAction × ProtocolMachine F S
      → Dispatcher A F S
      → Outcome (DispatchOutcome A) × Dispatcher A F S
  unfolding follow
  after_event clock peer sid peer_state (ok action, machine) d =
      let raised =
        raised_highest peer_state.machine.highest_authenticated_recv_nonce
          machine.highest_authenticated_recv_nonce in
      let moved = follow peer sid raised (record peer_state { machine = machine }) d in
      let here = touch clock peer moved.0 in
      (
        ok (DispatchOutcome.accepted (responses_of action) (payloads_of sid action) here.last_addr),
        put_peer sid here moved.1,
      )
  after_event clock peer sid peer_state (err e, machine) d =
      (ok DispatchOutcome.unauthorized, put_peer sid (record peer_state { machine = machine }) d)
  after_event clock peer sid peer_state (panic, machine) d =
      (panic, put_peer sid (record peer_state { machine = machine }) d)

  -- A datagram of a known session.
  unfoldable pub on_known :
      Env S
      → Clock
      → A
      → List ℕ
      → ℕ
      → PeerState A F S
      → Dispatcher A F S
      → Outcome (DispatchOutcome A) × Dispatcher A F S
  unfolding drop_session after_event
  on_known env clock peer packet sid peer_state d =
      let key = peer_state.access_key in
      let users = get_or_create_user_stats clock.unix key d.users in
      if not (is_admitted clock.unix key users)
      then (
        ok DispatchOutcome.unauthorized,
        drop_session clock.unix sid (record d { users = users }),
      )
      else after_event clock peer sid peer_state
          (on_event env clock.instant (OstpEvent.inbound packet) peer_state.machine)
          (record d { users = track_user_bytes_up clock.unix key (length packet) users })

-- ===== src/Dispatcher/Roaming.antt =====
-- Moving sessions at ostp-server/src/dispatcher.rs: which datagrams take a session to another address.
use ostp.Prelude.{
  ℕ, ◌≡◌, refl, true, false, Option, none, some, List, arith, Bool-cases, inl, inr, ◌⊎◌,
}
use ostp.External.{F64}
use ostp.Outcome.{Outcome, ok, err, panic}
use ostp.Obfuscation.{deobfuscate_packet_inplace}
use ostp.Machine.{ProtocolMachine, ProtocolAction, OstpEvent, OstpState, Env}
use ostp.Machine.Events.{on_event}
use ostp.Machine.Session.Authentic.{IsNewest, established-Follows}
use ostp.Dict.{Key, lookup, nat_key, bytes_key}
use ostp.Dict.Laws.{lookup-insert_self}
use ostp.Users.{is_admitted}
use ostp.Dispatcher.{Dispatcher, PeerState, DispatchOutcome, Clock}
use ostp.Dispatcher.Known.{on_known, after_event, follow, touch, raised_highest}
use ostp.Dispatcher.Expiry.{is_admitted-create}

not_raised : (before after : Option ℕ) → after ≡ before → raised_highest before after ≡ false
not_raised before none e = refl
not_raised none (some n) e = absurd cc
not_raised (some n) (some n') e = let same : n' ≡ n = cc in rw same (ground arith)

-- What is answered goes to the address.
abbrev pub AnswersAt : {A : Type 0} → A → Outcome (DispatchOutcome A) → Type 0
AnswersAt addr (ok (DispatchOutcome.accepted responses payloads to)) = to ≡ addr
AnswersAt addr _ = Unit

module _ {A F S : Type 0} ⦃k : Key A⦄ ⦃f : F64 F⦄ where
  -- The session is where it was.
  abbrev pub Stays : ℕ → PeerState A F S → Dispatcher A F S → Dispatcher A F S → Type 0
  Stays sid ps d d' =
      (d'.addr_to_session ≡ d.addr_to_session)
      × ((ps' : PeerState A F S) × (lookup sid d'.peer_machines ≡ some ps')
          × (ps'.last_addr ≡ ps.last_addr))

  follow_not :
      (peer : A) (sid : ℕ) (ps : PeerState A F S) (d : Dispatcher A F S)
      → follow peer sid false ps d ≡ (ps, d)
  unfolding follow
  follow_not peer sid ps d = elim (Bool-cases (k.beq ps.last_addr peer)) [
    | inl q ↦ rw q refl
    | inr q ↦ rw q refl
  ]

  touch-last_addr :
      (clock : Clock) (peer : A) (ps : PeerState A F S)
      → (touch clock peer ps).last_addr ≡ ps.last_addr
  touch-last_addr clock peer ps = elim (Bool-cases (k.beq ps.last_addr peer)) [
    | inl q ↦ rw q refl
    | inr q ↦ rw q refl
  ]

  after_event-Stays :
      (clock : Clock) (peer : A) (sid : ℕ) (ps : PeerState A F S)
      (r : Outcome ProtocolAction × ProtocolMachine F S) (d : Dispatcher A F S)
      → r.1.highest_authenticated_recv_nonce ≡ ps.machine.highest_authenticated_recv_nonce
      → let a = after_event clock peer sid ps r d in
        AnswersAt ps.last_addr (a.0) × Stays sid ps d (a.1)
  unfolding after_event
  after_event-Stays clock peer sid ps (ok action, m) d same =
      let still =
        not_raised ps.machine.highest_authenticated_recv_nonce m.highest_authenticated_recv_nonce
          same in
      let moved = record ps { machine = m } in
      let here = touch-last_addr clock peer moved in
      rw (still, follow_not peer sid moved d)
        (
          here,
          (
            refl,
            (
              touch clock peer moved,
              lookup-insert_self sid (touch clock peer moved) d.peer_machines,
              here,
            ),
          ),
        )
  after_event-Stays clock peer sid ps (err e, m) d same =
      (tt, (refl, (record ps { machine = m }, lookup-insert_self sid _ d.peer_machines, refl)))
  after_event-Stays clock peer sid ps (panic, m) d same =
      (tt, (refl, (record ps { machine = m }, lookup-insert_self sid _ d.peer_machines, refl)))

  unmoved_or :
      {N : Type 0} (clock : Clock) (peer : A) (sid : ℕ) (ps : PeerState A F S)
      (r : Outcome ProtocolAction × ProtocolMachine F S) (d : Dispatcher A F S)
      → (r.1.highest_authenticated_recv_nonce ≡ ps.machine.highest_authenticated_recv_nonce) ⊎ N
      → let a = after_event clock peer sid ps r d in
        (AnswersAt ps.last_addr (a.0) × Stays sid ps d (a.1)) ⊎ N
  unmoved_or clock peer sid ps r d (inl same) = inl (after_event-Stays clock peer sid ps r d same)
  unmoved_or clock peer sid ps r d (inr n) = inr n

  -- From whatever address a datagram comes to an established session of an admitted user: the session
  -- and the answer stay at the address that the session has, unless the datagram decrypts under the
  -- session's key and its nonce is above all that were authenticated before. A copy of any datagram
  -- that was authenticated, and a forged one, therefore move nothing.
  pub only_fresh_redirects :
      (env : Env S) (clock : Clock) (peer : A) (packet : List ℕ) (sid : ℕ) (ps : PeerState A F S)
      (d : Dispatcher A F S)
      → is_admitted clock.unix ps.access_key d.users ≡ true
      → ps.machine.state ≡ OstpState.established
      → let raw = deobfuscate_packet_inplace env.hash ps.machine.obfuscation_key false packet in
        let r = on_known env clock peer packet sid ps d in
        (AnswersAt ps.last_addr (r.0) × Stays sid ps d (r.1)) ⊎ IsNewest env raw ps.machine
  unfolding on_known
  only_fresh_redirects env clock peer packet sid ps d admitted e =
      rw (is_admitted-create clock.unix ps.access_key ps.access_key d.users, admitted)
        (unmoved_or clock peer sid ps
          (on_event env clock.instant (OstpEvent.inbound packet) ps.machine) _
          (established-Follows env clock.instant packet ps.machine e))

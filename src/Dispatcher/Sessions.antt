-- ===== src/Dispatcher/Sessions.antt =====
-- The sessions inside the dispatcher of ostp-server/src/dispatcher.rs: what ostp-core/src/protocol.rs keeps
-- of one session, the server keeps of all.
use ostp.Prelude.{ℕ, ◌≡◌, refl, sym, subst, List, [], ◌∷◌, All, arith}
use ostp.External.{F64}
use ostp.Outcome.{Outcome, ok, err, panic}
use ostp.Noise.{NoiseSession}
use ostp.Machine.{ProtocolMachine, ProtocolConfig, ProtocolAction, OstpEvent, Env, machine}
use ostp.Machine.Events.{on_event}
use ostp.Machine.Session
use ostp.Machine.Session.{Steady, Input}
use ostp.Machine.Session.Keys.{IsKeyed, Keyed-Steady}
use ostp.Machine.Session.Nonces.{IsFresh, IsFresh-Steady}
use ostp.Dict.{Key, Dict, nat_key, bytes_key}
use ostp.Dict.All.{Values, Values-lookup, Values-insert, Values-remove}
use ostp.Users.{UserMeta}
use ostp.Dispatcher.{PeerState, Clock, new}
use ostp.Dispatcher.Calls.{tick_all, ticked}
use ostp.Dispatcher.Rules.{Rules}
use ostp.Dispatcher.Life.{Call, run, run-keeps}

module _ {F S : Type 0} ⦃f : F64 F⦄ (I : ProtocolMachine F S → Type 0) (steady : Steady I) where
  event-keeps :
      (env : Env S) (now : ℕ) (event : OstpEvent) (old m : ProtocolMachine F S)
      → m ≡ (on_event env now event old).1
      → I old
      → I m
  unfolding Session.step
  event-keeps env now event old m e h =
      subst I (sym e) (Session.step-keeps env I steady (Input.event now event) old h)

module _ {A F S : Type 0} ⦃k : Key A⦄ ⦃f : F64 F⦄ (I : ProtocolMachine F S → Type 0)
    (steady : Steady I) where
  -- All sessions have it.
  abbrev AllSessions : Dict ℕ (PeerState A F S) → Type 0
  AllSessions m = Values (λ ps. I ps.machine) m

  ticked-keeps :
      (sid : ℕ) (ps : PeerState A F S) (rest : Dict ℕ (PeerState A F S))
      (r : Outcome ProtocolAction × ProtocolMachine F S)
      (next : Outcome (List (List ℕ × A)) × Dict ℕ (PeerState A F S))
      → I (r.1)
      → AllSessions rest
      → AllSessions (next.1)
      → AllSessions ((ticked sid ps rest r next).1)
  ticked-keeps sid ps rest (panic, m) next h t n = (h, t)
  ticked-keeps sid ps rest (err e, m) next h t n = (h, n)
  ticked-keeps sid ps rest (ok action, m) (ok frames, rest') h t n = (h, n)
  ticked-keeps sid ps rest (ok action, m) (err e, rest') h t n = (h, n)
  ticked-keeps sid ps rest (ok action, m) (panic, rest') h t n = (h, n)

  tick_all-keeps :
      (env : Env S) (now : ℕ) (m : Dict ℕ (PeerState A F S))
      → AllSessions m
      → AllSessions ((tick_all env now m).1)
  unfolding tick_all
  tick_all-keeps env now [] h = tt
  tick_all-keeps env now ((sid, ps) ∷ rest) h =
      ticked-keeps sid ps rest (on_event env now OstpEvent.tick ps.machine) (tick_all env now rest)
        (event-keeps I steady env now OstpEvent.tick ps.machine _ refl h.0) h.1
        (tick_all-keeps env now rest h.1)

  AllSessions-Rules :
      ((env : Env S) (config : ProtocolConfig) (now : ℕ) (noise : NoiseSession S)
        → I (machine env config now noise))
      → Rules {A = A} {F = F} {S = S} (λ m r. AllSessions m)
  AllSessions-Rules first = record {
    put = λ env now event sid old new m r at e h.
        Values-insert (λ ps. I ps.machine) sid new m
          (event-keeps I steady env now event old.machine new.machine e
            (Values-lookup (λ ps. I ps.machine) sid old m h at))
          h;
    leave = λ sid m r h. Values-remove (λ ps. I ps.machine) sid m h;
    join = λ env config now noise packet sid key new unix ts payload m r e room fresh h.
        Values-insert (λ ps. I ps.machine) sid new m
          (subst I (sym e) (
            steady.rekey sid key _ (
              event-keeps I steady env now (OstpEvent.inbound packet) (machine env config now noise)
                _ refl (first env config now noise))))
          h;
    forget = λ unix m r h. h;
    refuse = λ unix ts payload m r fresh h. h;
    age = λ unix m r h. h;
    tick = λ env now m r h. tick_all-keeps env now m h;
  }

  run-AllSessions :
      (clock : Clock) (config : ProtocolConfig) (access_keys : Dict (List ℕ) UserMeta)
      (calls : List (Call A S))
      → ((env : Env S) (config : ProtocolConfig) (now : ℕ) (noise : NoiseSession S)
          → I (machine env config now noise))
      → AllSessions ((run calls (new clock config access_keys)).peer_machines)
  unfolding new
  run-AllSessions clock config access_keys calls first =
      run-keeps (λ m r. AllSessions m) (AllSessions-Rules first) calls _ tt

-- Whatever happens to a server, each session it holds has both its keys once it is established or
-- closing, and the frames of its sent history have rising nonces below the next one.
pub server_sessions_sound :
    {A S : Type 0} (F : Type 0) ⦃k : Key A⦄ ⦃f : F64 F⦄ (clock : Clock) (config : ProtocolConfig)
    (access_keys : Dict (List ℕ) UserMeta) (calls : List (Call A S))
    → let d = run calls (new {A = A} {F = F} {S = S} clock config access_keys) in
      All (λ x. IsKeyed x.1.machine) d.peer_machines
      × All (λ x. IsFresh x.1.machine) d.peer_machines
server_sessions_sound F clock config access_keys calls = (
  run-AllSessions IsKeyed Keyed-Steady clock config access_keys calls (λ env config now noise. tt),
  run-AllSessions IsFresh IsFresh-Steady clock config access_keys calls
      (λ env config now noise. omega arith),
)

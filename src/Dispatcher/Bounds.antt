-- ===== src/Dispatcher/Bounds.antt =====
-- How much the dispatcher of ostp-server/src/dispatcher.rs can hold.
use ostp.Prelude.{
  ℕ, ◌+◌, ◌≤◌, ◌<◌, ◌≡◌, refl, ◌∙◌, true, Option, none, some, List, [], ◌∷◌, length, leb, arith,
  Bool-cases, inl, inr, leb→le,
}
use ostp.External.{F64}
use ostp.Outcome.{Outcome, ok, err, panic}
use ostp.Machine.{ProtocolMachine, ProtocolConfig, ProtocolAction, OstpEvent, Env}
use ostp.Machine.Events.{on_event}
use ostp.Dict.{Key, Dict, lookup, insert, contains, nat_key, bytes_key}
use ostp.Dict.Laws.{
  length-insert, length-insert-le, length-remove, length-remove-le, length-retain, beq_self,
}
use ostp.Users.{UserMeta}
use ostp.Dispatcher.{PeerState, Clock, max_sessions, replay_cache_max, new}
use ostp.Dispatcher.Handshake.{within_drift, oldest, older, without, expire, reclaim}
use ostp.Dispatcher.Calls.{tick_all, ticked}
use ostp.Dispatcher.Rules.{Rules}
use ostp.Dispatcher.Life.{Call, run, run-keeps}

module _ {A F S : Type 0} ⦃k : Key A⦄ ⦃f : F64 F⦄ where
  length-ticked :
      (sid : ℕ) (ps : PeerState A F S) (rest : Dict ℕ (PeerState A F S))
      (r : Outcome ProtocolAction × ProtocolMachine F S)
      (next : Outcome (List (List ℕ × A)) × Dict ℕ (PeerState A F S))
      → length next.1 ≡ length rest
      → length (ticked sid ps rest r next).1 ≡ length rest + 1
  length-ticked sid ps rest (panic, m) next h = omega arith
  length-ticked sid ps rest (err e, m) next h = omega (arith, h)
  length-ticked sid ps rest (ok action, m) (ok frames, rest') h = omega (arith, h)
  length-ticked sid ps rest (ok action, m) (err e, rest') h = omega (arith, h)
  length-ticked sid ps rest (ok action, m) (panic, rest') h = omega (arith, h)

  length-tick_all :
      (env : Env S) (now : ℕ) (m : Dict ℕ (PeerState A F S))
      → length (tick_all env now m).1 ≡ length m
  unfolding tick_all
  length-tick_all env now [] = refl
  length-tick_all env now ((sid, ps) ∷ rest) = omega (
    arith,
    length-ticked sid ps rest (on_event env now OstpEvent.tick ps.machine) (tick_all env now rest)
        (length-tick_all env now rest),
  )

-- The oldest entry is one of the cache.
contains-older :
    (x : List ℕ × ℕ) (o : Option (List ℕ × ℕ)) (d : Dict (List ℕ) ℕ)
    → ((y : List ℕ × ℕ) → o ≡ some y → contains y.0 d ≡ true)
    → (y : List ℕ × ℕ) × (older x o ≡ some y) × (contains y.0 (x ∷ d) ≡ true)
unfolding lookup
contains-older x none d h = (x, refl, rw (beq_self x.0) refl)
contains-older x (some y) d h = elim (Bool-cases (leb x.1 y.1)) [
  | inl q ↦ (x, rw q refl, rw (beq_self x.0) refl)
  | inr q ↦ (y, rw q refl, ground (arith, h y refl))
]

oldest-contains : (d : Dict (List ℕ) ℕ) (y : List ℕ × ℕ) → oldest d ≡ some y → contains y.0 d ≡ true
unfolding oldest
oldest-contains [] y h = absurd cc
oldest-contains (x ∷ d) y h =
    let r = contains-older x (oldest d) d (oldest-contains d) in
    let same : y ≡ r.0 = cc (h, r.1) in rw same (r.2)

without-length : (d : Dict (List ℕ) ℕ) → 0 < length d → length (without (oldest d) d) + 1 ≤ length d
unfolding oldest
without-length [] h = absurd (omega arith)
without-length (x ∷ d) h =
    let r = contains-older x (oldest d) d (oldest-contains d) in
    rw r.1 (omega (arith, length-remove r.0.0 (x ∷ d) r.2))

reclaim-room :
    (unix : ℕ) (cache : Dict (List ℕ) ℕ)
    → length cache ≤ replay_cache_max
    → length (reclaim unix cache) < replay_cache_max
unfolding reclaim expire
reclaim-room unix cache h =
    let young = expire unix cache in
    let less = length-retain (λ x. within_drift unix x.1) cache in
    elim (Bool-cases (leb replay_cache_max (length cache))) [
      | inr room ↦ rw room (ground (arith, room))
      | inl full ↦ elim (Bool-cases (leb replay_cache_max (length young))) [
        | inr room ↦ rw (full, room) (ground (arith, room))
        | inl still ↦
            rw (full, still)
              (omega
                (arith, less, h, without-length young (ground (arith, still)), leb→le _ _ still))
      ]
    ]

-- At most that many sessions and remembered handshakes.
abbrev pub IsSmall : {A F S : Type 0} → Dict ℕ (PeerState A F S) → Dict (List ℕ) ℕ → Type 0
IsSmall m r = (length m ≤ max_sessions) × (length r ≤ replay_cache_max)

module _ {A F S : Type 0} ⦃k : Key A⦄ ⦃f : F64 F⦄ where
  put-length :
      (sid : ℕ) (old new : PeerState A F S) (m : Dict ℕ (PeerState A F S))
      → lookup sid m ≡ some old
      → length (insert sid new m) ≡ length m
  put-length sid old new m at = length-insert sid new m ∙ rw at refl

  IsSmall-Rules : Rules {A = A} {F = F} {S = S} IsSmall
  unfolding expire
  IsSmall-Rules = record {
    put = λ env now event sid old new m r at e h.
        (omega (arith, put-length sid old new m at, h.0), h.1);
    leave = λ sid m r h. (omega (arith, length-remove-le sid m, h.0), h.1);
    join = λ env config now noise packet sid key new unix ts payload m r e room fresh h. (
      omega (arith, length-insert-le sid new m),
      omega (arith, length-insert-le payload ts (reclaim unix r), reclaim-room unix r h.1),
    );
    forget = λ unix m r h. (h.0, omega (arith, reclaim-room unix r h.1));
    refuse = λ unix ts payload m r fresh h.
        (h.0, omega (arith, length-insert-le payload ts (reclaim unix r), reclaim-room unix r h.1));
    age = λ unix m r h. (h.0, omega (arith, length-retain (λ x. within_drift unix x.1) r, h.1));
    tick = λ env now m r h. (omega (arith, length-tick_all env now m, h.0), h.1);
  }

-- Whatever datagrams arrive and whatever else happens to a server, it never holds more than 1024
-- sessions nor remembers more than 50,000 handshakes.
pub server_bounds :
    {A S : Type 0} (F : Type 0) ⦃k : Key A⦄ ⦃f : F64 F⦄ (clock : Clock) (config : ProtocolConfig)
    (access_keys : Dict (List ℕ) UserMeta) (calls : List (Call A S))
    → let d = run calls (new {A = A} {F = F} {S = S} clock config access_keys) in
      (length d.peer_machines ≤ max_sessions) × (length d.replay_cache ≤ replay_cache_max)
unfolding new
server_bounds F clock config access_keys calls =
    run-keeps IsSmall IsSmall-Rules calls _ (omega arith, omega arith)

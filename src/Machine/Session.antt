-- ===== src/Machine/Session.antt =====
-- The life of a session of ostp-core/src/protocol.rs: events at times on the clock, moves to another path
-- and changes of the session's keys, in any order.
pub mod Nonces
pub mod Authentic
pub mod Window
pub mod States
pub mod Keys
pub mod Stalls
pub mod Sequence
pub mod Rejects
use ostp.Prelude.{ℕ, ◌≡◌, List, [], ◌∷◌, subst}
use ostp.Outcome.{Outcome, ok, err, panic, ◌>>=◌}
use ostp.Noise.{NoiseSession}
use ostp.External.{F64}
use ostp.Op.Keeps.{Keeps}
use ostp.Machine.{
  ProtocolMachine, ProtocolConfig, Env, OstpEvent, machine, new, on_path_change, set_session_keys,
}
use ostp.Machine.Events.{on_event}
use ostp.Machine.Steady.{Sends, Hears, Receives, Shakes, Moves}
use ostp.Machine.Steady.Handling.{on_event-Keeps}

pub data Input : Type 0 where
  event : ℕ → OstpEvent → Input
  path_change : ℕ → Input
  session_keys : ℕ → List ℕ → Input

ok-keeps :
    {A B : Type 0} (I : B → Type 0) (g : A → B) (r : Outcome A) (b : B)
    → ((a : A) → I (g a))
    → (r >>= λ a. ok (g a)) ≡ ok b
    → I b
ok-keeps I g (ok a) b first e = let same : g a ≡ b = cc in subst I same (first a)
ok-keeps I g (err x) b first e = absurd cc
ok-keeps I g panic b first e = absurd cc

module _ {F S : Type 0} ⦃f : F64 F⦄ where
  -- What the caller does to a session, whatever an event returns.
  unfoldable pub step : Env S → Input → ProtocolMachine F S → ProtocolMachine F S
  step env (event now e) m = (on_event env now e m).1
  step env (path_change now) m = on_path_change now m
  step env (session_keys session_id key) m = set_session_keys session_id key m

  unfoldable pub run : Env S → List Input → ProtocolMachine F S → ProtocolMachine F S
  unfolding step
  run env [] m = m
  run env (i ∷ inputs) m = run env inputs (step env i m)

  -- Every change of a session keeps the predicate.
  pub record Steady (I : ProtocolMachine F S → Type 0) : Type 0 where
    pub sends : Sends I
    pub hears : Hears I
    pub receives : Receives I
    pub shakes : Shakes I
    pub moves : Moves I
    pub change_path : (now : ℕ) (m : ProtocolMachine F S) → I m → I (on_path_change now m)
    pub rekey :
        (session_id : ℕ) (key : List ℕ) (m : ProtocolMachine F S)
        → I m
        → I (set_session_keys session_id key m)

  pub step-keeps :
      (env : Env S) (I : ProtocolMachine F S → Type 0)
      → Steady I
      → (i : Input) (m : ProtocolMachine F S) → I m
      → I (step env i m)
  unfolding step
  step-keeps env I steady (event now e) m h =
      on_event-Keeps env I steady.sends steady.hears steady.receives steady.shakes steady.moves now
        e m h
  step-keeps env I steady (path_change now) m h = steady.change_path now m h
  step-keeps env I steady (session_keys session_id key) m h = steady.rekey session_id key m h

  pub run-keeps :
      (env : Env S) (I : ProtocolMachine F S → Type 0)
      → Steady I
      → (inputs : List Input) (m : ProtocolMachine F S) → I m
      → I (run env inputs m)
  unfolding run
  run-keeps env I steady [] m h = h
  run-keeps env I steady (i ∷ inputs) m h =
      run-keeps env I steady inputs _ (step-keeps env I steady i m h)

  -- A new session and all that happens to it.
  pub new-run-keeps :
      (env : Env S) (I : ProtocolMachine F S → Type 0)
      → Steady I
      → (config : ProtocolConfig) (now : ℕ) (inputs : List Input) (m : ProtocolMachine F S)
      → ((noise : NoiseSession S) → I (machine env config now noise))
      → new env config now ≡ ok m
      → I (run env inputs m)
  unfolding new
  new-run-keeps env I steady config now inputs m first e =
      run-keeps env I steady inputs m (ok-keeps I (machine env config now) _ m first e)

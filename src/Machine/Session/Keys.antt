-- ===== src/Machine/Session/Keys.antt =====
-- The keys of a session of ostp-core/src/protocol.rs are there as long as it is used.
use ostp.Prelude.{ℕ, ◌≡◌, refl, subst, Bool, true, false, Option, some, none, List, if◌then◌else◌}
use ostp.External.{F64}
use ostp.Outcome.{ok}
use ostp.Machine.{
  ProtocolMachine, ProtocolConfig, OstpState, Env, new, on_path_change, set_session_keys,
}
use ostp.Machine.Send.{push_sent_frame}
use ostp.Machine.Feedback.{drop_acked_frames}
use ostp.Machine.Receive.{note_kind, is_close}
use ostp.Machine.Tick.{evict, scan}
use ostp.Machine.Session.{Steady, Input, run, new-run-keeps}

abbrev pub is_some : Option (List ℕ) → Bool
is_some none = false
is_some (some key) = true

abbrev pub NeedsKeys : OstpState → Option (List ℕ) → Option (List ℕ) → Type 0
NeedsKeys OstpState.established send recv = (is_some send ≡ true) × (is_some recv ≡ true)
NeedsKeys OstpState.closing send recv = (is_some send ≡ true) × (is_some recv ≡ true)
NeedsKeys _ send recv = Unit

-- In the states that send and receive data both keys are known.
abbrev pub IsKeyed : {F S : Type 0} → ProtocolMachine F S → Type 0
IsKeyed m = NeedsKeys m.state m.send_cipher m.recv_cipher

note-Keyed :
    (b : Bool) (s : OstpState) (send recv : Option (List ℕ))
    → NeedsKeys s send recv
    → NeedsKeys (if b then OstpState.closed else s) send recv
note-Keyed true s send recv h = tt
note-Keyed false s send recv h = h

to_closing :
    (s : OstpState) (send recv : Option (List ℕ))
    → s ≡ OstpState.established
    → NeedsKeys s send recv
    → NeedsKeys OstpState.closing send recv
to_closing s send recv e h = subst (λ s. NeedsKeys s send recv) e h

module _ {F S : Type 0} ⦃f : F64 F⦄ where
  pub Keyed-Steady : Steady {F = F} {S = S} IsKeyed
  unfolding drop_acked_frames note_kind evict scan on_path_change set_session_keys push_sent_frame
  Keyed-Steady = record {
    sends = record {
      draw = λ m n h. h;
      count = λ m h fresh. h;
      send = λ now bytes tracked m h fresh. h;
      acknowledge = λ pending stamp m h. h;
    };
    hears = record {
      authenticate = λ count highest m h. h;
      lose = λ now bytes m h. h;
      look_up = λ now nonce m bytes frames e h. h;
      drop_acked = λ now ranges m h. h;
      note = λ kind m h. note-Keyed (is_close kind) m.state m.send_cipher m.recv_cipher h;
    };
    receives = record {
      skip = λ now m h. h;
      insert = λ now nonce action m le h. h;
      nacked = λ now m h. h;
      give_up = λ m h. h;
      retry = λ now m h. h;
    };
    shakes = record { draw = λ m n h. h; shake = λ m noise h. h };
    moves = record {
      begin = λ m e h. tt;
      establish = λ send_key recv_key m e h. (refl, refl);
      start_close = λ m e h. to_closing m.state m.send_cipher m.recv_cipher e h;
      finish = λ m h. tt;
    };
    change_path = λ now m h. h;
    rekey = λ session_id key m h. h;
  }

  -- A new session that is established or closing has both its keys, whatever happened before: no
  -- datagram fails for want of one.
  pub session-IsKeyed :
      (env : Env S) (config : ProtocolConfig) (now : ℕ) (inputs : List Input)
      (m : ProtocolMachine F S)
      → new env config now ≡ ok m
      → IsKeyed (run env inputs m)
  session-IsKeyed env config now inputs m e =
      new-run-keeps env IsKeyed Keyed-Steady config now inputs m (λ noise. tt) e

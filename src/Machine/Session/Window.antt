-- ===== src/Machine/Session/Window.antt =====
-- The congestion window of a session of ostp-core/src/protocol.rs.
use ostp.Prelude.{
  ℕ, ◌^◌, ◌<◌, ◌≡◌, Bool, true, false, Option, some, none, List, length, if◌then◌else◌,
}
use ostp.Congestion.{CongestionController, on_send}
use ostp.Congestion
use ostp.Congestion.Window.{
  IsBounded, Call, step-IsBounded, new-IsBounded, sends, acks, acks_no_rtt, loses, moves,
}
use ostp.External.{F64}
use ostp.Outcome.{ok}
use ostp.History.{min_rtt_of}
use ostp.Machine.{ProtocolMachine, ProtocolConfig, Env, new, on_path_change, set_session_keys}
use ostp.Machine.Send.{push_sent_frame}
use ostp.Machine.Feedback.{notify, drop_acked_frames}
use ostp.Machine.Receive.{note_kind}
use ostp.Machine.Tick.{evict, scan}
use ostp.Machine.Session.{Steady, Input, run, new-run-keeps}

module _ {F : Type 0} ⦃f : F64 F⦄ where
  on_send-if :
      (now bytes : ℕ) (tracked : Bool) (c : CongestionController F)
      → IsBounded c
      → IsBounded (if tracked then on_send now bytes c else c)
  unfolding Congestion.Window.step
  on_send-if now bytes true c h = step-IsBounded c (now, sends bytes) h
  on_send-if now bytes false c h = h

  notify-IsBounded :
      (now acked : ℕ) (r : Option ℕ) (c : CongestionController F)
      → IsBounded c
      → IsBounded (notify now acked r c)
  unfolding Congestion.Window.step
  notify-IsBounded now acked none c h = step-IsBounded c (now, acks_no_rtt acked) h
  notify-IsBounded now acked (some rtt) c h = step-IsBounded c (now, acks acked rtt) h

  notify-if :
      (now acked : ℕ) (r : Option ℕ) (b : Bool) (c : CongestionController F)
      → IsBounded c
      → IsBounded (if b then notify now acked r c else c)
  notify-if now acked r true c h = notify-IsBounded now acked r c h
  notify-if now acked r false c h = h

module _ {F S : Type 0} ⦃f : F64 F⦄ where
  IsBounded-Steady : Steady {F = F} {S = S} (λ m. IsBounded m.cc)
  unfolding drop_acked_frames note_kind evict scan on_path_change set_session_keys push_sent_frame
      Congestion.Window.step
  IsBounded-Steady = record {
    sends = record {
      draw = λ m n h. h;
      count = λ m h fresh. h;
      send = λ now bytes tracked m h fresh. on_send-if now (length bytes) tracked m.cc h;
      acknowledge = λ pending stamp m h. h;
    };
    hears = record {
      authenticate = λ count highest m h. h;
      lose = λ now bytes m h. step-IsBounded m.cc (now, loses bytes) h;
      look_up = λ now nonce m bytes frames e h. h;
      drop_acked =
          λ now ranges m h. notify-if now _ (min_rtt_of now ranges none m.sent_history) _ m.cc h;
      note = λ kind m h. h;
    };
    receives = record {
      skip = λ now m h. h;
      insert = λ now nonce action m le h. h;
      nacked = λ now m h. h;
      give_up = λ m h. h;
      retry = λ now m h. h;
    };
    shakes = record { draw = λ m n h. h; shake = λ m noise h. h };
    moves = record {
      begin = λ m e h. h;
      establish = λ send_key recv_key m e h. h;
      start_close = λ m e h. h;
      finish = λ m h. h;
    };
    change_path = λ now m h. step-IsBounded m.cc (now, moves) h;
    rekey = λ session_id key m h. h;
  }

  -- Whatever happens to a new session with packets of 1 to 2 ^ 32 - 1 bytes, its congestion window
  -- stays between two and 1024 of its packets.
  pub session_window_bounds :
      (env : Env S) (config : ProtocolConfig) (now : ℕ) (inputs : List Input)
      (m : ProtocolMachine F S)
      → 0 < config.mtu
      → config.mtu < 2 ^ 32
      → new env config now ≡ ok m
      → IsBounded ((run env inputs m).cc)
  session_window_bounds env config now inputs m p q e =
      new-run-keeps env (λ m. IsBounded m.cc) IsBounded-Steady config now inputs m
        (λ noise. new-IsBounded config.mtu now p q) e

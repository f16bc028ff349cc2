-- ===== src/Machine/Session/Sequence.antt =====
-- The receive sequence of a session of ostp-core/src/protocol.rs over its whole life, and what a
-- replayed datagram does.
use ostp.Prelude.{ℕ, suc, ◌≤◌, ◌≡◌, List, arith}
use ostp.External.{F64}
use ostp.Outcome.{ok}
use ostp.Reorder.Sorted.{Above}
use ostp.Reorder.{Drained}
use ostp.Reorder.Ahead.{Ahead, accept-Ahead, skip_gap-Ahead}
use ostp.Machine.{
  ProtocolMachine, ProtocolConfig, ProtocolAction, Env, new, on_path_change, set_session_keys,
}
use ostp.Machine.Send.{push_sent_frame}
use ostp.Machine.Feedback.{drop_acked_frames}
use ostp.Machine.Receive.{note_kind}
use ostp.Machine.Tick.{evict, scan}
use ostp.Machine.Session.{Steady, Input, run, run-keeps, new-run-keeps}

-- At least `n` is expected, and only later nonces are buffered.
pub record IsSequenced (n e : ℕ) (buffer : List (ℕ × ProtocolAction)) : Type 0 where
  pub reached : n ≤ e
  pub ahead : Above (suc e) buffer

IsSequenced-Ahead :
    (n e : ℕ) (buffer : List (ℕ × ProtocolAction)) (d : Drained ProtocolAction)
    → IsSequenced n e buffer
    → Ahead e d
    → IsSequenced n d.expected d.buffer
IsSequenced-Ahead n e buffer d s a = record {
  reached = omega (arith, s.reached, a.onward);
  ahead = a.above;
}

module _ {F S : Type 0} ⦃f : F64 F⦄ where
  Sequenced-Steady :
      (n : ℕ) → Steady {F = F} {S = S} (λ m. IsSequenced n m.expected_recv_nonce m.reorder_buffer)
  unfolding drop_acked_frames note_kind evict scan on_path_change set_session_keys push_sent_frame
  Sequenced-Steady n = record {
    sends = record {
      draw = λ m n h. h;
      count = λ m h fresh. h;
      send = λ now bytes tracked m h fresh. h;
      acknowledge = λ pending stamp m h. h;
    };
    hears = record {
      authenticate = λ count highest m h. h;
      lose = λ now bytes m h. h;
      look_up = λ now nonce m bytes frames e h. h;
      drop_acked = λ now ranges m h. h;
      note = λ kind m h. h;
    };
    receives = record {
      skip = λ now m h.
          IsSequenced-Ahead n _ _ _ h
            (skip_gap-Ahead m.expected_recv_nonce m.reorder_buffer h.ahead);
      insert = λ now nonce action m le h. IsSequenced-Ahead n _ _ _ h (
          accept-Ahead m.max_reorder_buffer nonce action m.expected_recv_nonce m.reorder_buffer le
            h.ahead);
      nacked = λ now m h. h;
      give_up = λ m h. h;
      retry = λ now m h. h;
    };
    shakes = record { draw = λ m n h. h; shake = λ m noise h. h };
    moves = record {
      begin = λ m e h. h;
      establish = λ send_key recv_key m e h. h;
      start_close = λ m e h. h;
      finish = λ m h. h;
    };
    change_path = λ now m h. h;
    rekey = λ session_id key m h. h;
  }

  -- In a new session, whatever happens first and whatever follows: the expected nonce does not fall,
  -- and the reorder buffer stays sorted, all its nonces above the expected one.
  pub expected_never_falls :
      (env : Env S) (config : ProtocolConfig) (now : ℕ) (before after : List Input)
      (m : ProtocolMachine F S)
      → new env config now ≡ ok m
      → IsSequenced
          ((run env before m).expected_recv_nonce)
          ((run env after (run env before m)).expected_recv_nonce)
          ((run env after (run env before m)).reorder_buffer)
  expected_never_falls env config now before after m e =
      let first =
        new-run-keeps env (λ m. IsSequenced 0 m.expected_recv_nonce m.reorder_buffer)
          (Sequenced-Steady 0) config now before m
          (λ noise. record { reached = omega arith; ahead = tt }) e in
      let start = (run env before m).expected_recv_nonce in
      run-keeps env (λ m. IsSequenced start m.expected_recv_nonce m.reorder_buffer)
        (Sequenced-Steady start) after (run env before m)
        (record { reached = omega arith; ahead = first.ahead })

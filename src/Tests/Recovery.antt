-- ===== src/Tests/Recovery.antt =====
-- Lost, late, forged and replayed datagrams on concrete inputs.
use ostp.Prelude.{
  ℕ, ◌<◌, ◌≡◌, refl, true, List, [], ◌∷◌, length, take, drop, from_be_bytes, to_be_bytes, arith,
  suc, ◌≤◌, false, none,
}
use ostp.Outcome.{err, crypto}
use ostp.Congestion.{rto}
use ostp.Congestion
use ostp.Reorder.{skip_gap, drain_all, drain, first_key, remove}
use ostp.Congestion.Window.{IsBounded}
use ostp.Machine.{ProtocolMachine, ProtocolAction, OstpState, OstpEvent}
use ostp.Machine.Gap.{gap_timeout, is_stalled, jump, recover_stalled_gap}
use ostp.Machine.Receive.{handle_data_inbound}
use ostp.Machine.Events.{on_event}
use ostp.Machine.Session.{run}
use ostp.Machine.Session.Sequence.{IsSequenced, expected_never_falls}
use ostp.Machine.Session.Rejects.{IsQuiet, received, IsAcceptable, rejected_changes_nothing}
use ostp.Noise.{nonce_from_counter}
use ostp.Reorder.Sorted.{Above}
use ostp.Machine.Session.Stalls.{stalled_session_moves_on, forgery_loses_recovered}
use ostp.Machine.Session.States.{can_become, IsIgnored, states_in_order, closing_ignores_inbound}
use ostp.Machine.Session.Keys.{IsKeyed, session-IsKeyed}
use ostp.Machine.Session.Window.{session_window_bounds}
use ostp.Tests.World.{whole_numbers, unseal, toy_env, toy_config, fresh_session, receiver}
use ostp.Tests.Sessions.{some_inputs, fresh_is_new}

expected_never_falls_example :
    IsSequenced
      ((run toy_env some_inputs fresh_session).expected_recv_nonce)
      ((run toy_env some_inputs (run toy_env some_inputs fresh_session)).expected_recv_nonce)
      ((run toy_env some_inputs (run toy_env some_inputs fresh_session)).reorder_buffer)
expected_never_falls_example =
    expected_never_falls toy_env toy_config 0 some_inputs some_inputs fresh_session fresh_is_new

-- Waiting for nonce 4, with 6 buffered.
abbrev waiting : ProtocolMachine ℕ ℕ
waiting = record receiver {
  expected_recv_nonce = 4;
  reorder_buffer = (6, ProtocolAction.deliver_app 1 (9 ∷ [])) ∷ [];
}

-- Session 1, a nonce, and a body of three bytes.
abbrev raw_with : ℕ → List ℕ
raw_with nonce = 0 ∷ 0 ∷ 0 ∷ 1 ∷ 0 ∷ 0 ∷ 0 ∷ 0 ∷ 0 ∷ 0 ∷ 0 ∷ nonce ∷ 1 ∷ 2 ∷ 3 ∷ []

nonce_of_raw : (n : ℕ) → from_be_bytes (take 8 (drop 4 (raw_with n))) ≡ n
unfolding from_be_bytes
nonce_of_raw n = omega arith

short_body :
    (nonce : ℕ)
    → toy_env.aead.decrypt (1 ∷ []) (nonce_from_counter nonce) (1 ∷ 2 ∷ 3 ∷ []) (to_be_bytes 4 1)
      ≡ none
unfolding unseal
short_body nonce = refl

-- Nonce 2 was delivered before.
already_there : IsAcceptable toy_env (raw_with 2) waiting → ⊥
already_there h = absurd (omega (arith, h.2, nonce_of_raw 2))

in_time : is_stalled 50 waiting ≡ false
unfolding is_stalled gap_timeout rto Congestion.new
in_time = refl

rejected_changes_nothing_example :
    IsQuiet ((handle_data_inbound toy_env 50 (raw_with 2) waiting).0)
    × (received ((handle_data_inbound toy_env 50 (raw_with 2) waiting).1) ≡ received waiting)
rejected_changes_nothing_example =
    rejected_changes_nothing toy_env 50 (raw_with 2) waiting in_time already_there

late_wait : is_stalled 20_000_000_000 waiting ≡ true
unfolding is_stalled gap_timeout rto Congestion.new
late_wait = refl

after_jump : (jump 20_000_000_000 waiting).expected_recv_nonce ≡ 7
unfolding skip_gap drain_all drain first_key remove
after_jump = refl

forgery_loses_recovered_example :
    let r = handle_data_inbound toy_env 20_000_000_000 (raw_with 7) waiting in
    (r.0 ≡ err crypto)
    × ((later : List ProtocolAction) × ((recover_stalled_gap 20_000_000_000 waiting).0
          ≡ ProtocolAction.deliver_app 1 (9 ∷ []) ∷ later))
    × (6 ≤ r.1.expected_recv_nonce)
    × Above (suc r.1.expected_recv_nonce) r.1.reorder_buffer
forgery_loses_recovered_example =
    forgery_loses_recovered toy_env 20_000_000_000 (raw_with 7) (1 ∷ []) 6
      (ProtocolAction.deliver_app 1 (9 ∷ [])) [] waiting refl (omega arith, tt) late_wait
      (omega arith) (omega (arith, after_jump, nonce_of_raw 7))
      (omega (arith, after_jump, nonce_of_raw 7)) refl (short_body 7)

stalled_session_moves_on_example :
    (0 < length ((recover_stalled_gap 20_000_000_000 waiting).0))
    × (waiting.expected_recv_nonce
        < (recover_stalled_gap 20_000_000_000 waiting).1.expected_recv_nonce)
stalled_session_moves_on_example =
    stalled_session_moves_on 20_000_000_000 waiting (omega arith, tt) (omega arith) (omega arith)

states_in_order_example : can_become waiting.state ((run toy_env some_inputs waiting).state) ≡ true
states_in_order_example = states_in_order toy_env some_inputs waiting

abbrev leaving : ProtocolMachine ℕ ℕ
leaving = record waiting { state = OstpState.closing }

closing_ignores_inbound_example :
    IsIgnored leaving (on_event toy_env 50 (OstpEvent.inbound (raw_with 4)) leaving)
closing_ignores_inbound_example = closing_ignores_inbound toy_env 50 (raw_with 4) leaving refl

session-IsKeyed_example : IsKeyed (run toy_env some_inputs fresh_session)
session-IsKeyed_example =
    session-IsKeyed toy_env toy_config 0 some_inputs fresh_session fresh_is_new

session_window_bounds_example : IsBounded ((run toy_env some_inputs fresh_session).cc)
session_window_bounds_example =
    session_window_bounds toy_env toy_config 0 some_inputs fresh_session (omega arith) (omega arith)
      fresh_is_new

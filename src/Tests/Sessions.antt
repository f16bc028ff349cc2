-- ===== src/Tests/Sessions.antt =====
-- Sessions on concrete inputs.
use ostp.Prelude.{ℕ, ◌<◌, ◌≡◌, refl, true, List, [], ◌∷◌, ◌++◌, to_be_bytes, arith}
use ostp.Outcome.{ok}
use ostp.Noise.{encrypt}
use ostp.Noise
use ostp.Framing.{FrameKind, encode, encode_header}
use ostp.Framing.Padding.{build_padding, padding_for_len, raw_pad}
use ostp.Machine.{ProtocolMachine, ProtocolAction, OstpEvent, new, on_path_change}
use ostp.Machine.Send.{build_datagram, push_sent_frame}
use ostp.Machine.Send.Datagram.{plaintext_of, masked_datagram, sent_state, build_datagram-ok}
use ostp.Machine.Events.{on_event}
use ostp.Machine.Delivery.{datagram_delivered}
use ostp.Machine.Session.{Input, run, step}
use ostp.Machine.Session.Nonces.{IsFresh, IsSealed, sent_nonces_rise, nonces_never_repeat}
use ostp.Tests.World.{
  whole_numbers, zero_bytes, all_bytes, seal, dull_rng, toy_env, toy_config, fresh_session, sender,
  receiver,
}

abbrev hello : List ℕ
hello = 7 ∷ []

abbrev hello_text : List ℕ
hello_text = plaintext_of toy_env sender 3 FrameKind.data_frame hello []

abbrev hello_datagram : List ℕ
hello_datagram = masked_datagram toy_env sender (hello_text ++ zero_bytes 16)

abbrev after_hello : ProtocolMachine ℕ ℕ
after_hello = sent_state toy_env 100 hello_datagram true sender

hello_sent :
    build_datagram toy_env 100 3 FrameKind.data_frame hello true sender
    ≡ (ok hello_datagram, after_hello)
unfolding build_padding padding_for_len raw_pad encrypt seal all_bytes encode encode_header
    to_be_bytes zero_bytes
hello_sent =
    build_datagram-ok toy_env 100 3 FrameKind.data_frame hello true sender [] (1 ∷ [])
      (hello_text ++ zero_bytes 16) refl refl refl refl

datagram_delivered_example :
    let r =
      on_event
        (record toy_env { rng = dull_rng })
        200
        (OstpEvent.inbound hello_datagram)
        receiver in
    (r.0 ≡ ok (ProtocolAction.deliver_app 3 hello))
    × (r.1.expected_recv_nonce ≡ after_hello.send_nonce)
    × (r.1.reorder_buffer ≡ [])
datagram_delivered_example =
    datagram_delivered toy_env dull_rng 100 200 3 hello hello_datagram sender after_hello receiver
      hello_sent
      (record {
        established = refl;
        same_session = refl;
        same_mask = refl;
        same_key = refl;
        in_step = refl;
        empty = refl;
      })
      (omega arith) (omega arith)

abbrev pub some_inputs : List Input
some_inputs =
    Input.event 1 OstpEvent.start
    ∷ Input.event 2 (OstpEvent.outbound 3 hello)
    ∷ Input.path_change 5
    ∷ Input.event 6 OstpEvent.close
    ∷ []

pub fresh_is_new : new toy_env toy_config 0 ≡ ok fresh_session
unfolding new Noise.new
fresh_is_new = refl

-- The path changes between two datagrams.
abbrev path_changes : List Input
path_changes = Input.path_change 5 ∷ []

abbrev moved_sender : ProtocolMachine ℕ ℕ
moved_sender = run toy_env path_changes after_hello

abbrev again_text : List ℕ
again_text = plaintext_of toy_env moved_sender 3 FrameKind.data_frame hello []

abbrev again_datagram : List ℕ
again_datagram = masked_datagram toy_env moved_sender (again_text ++ zero_bytes 16)

again_sent :
    build_datagram toy_env 300 3 FrameKind.data_frame hello true moved_sender
    ≡ (ok again_datagram, sent_state toy_env 300 again_datagram true moved_sender)
unfolding build_padding padding_for_len raw_pad encrypt seal all_bytes encode encode_header
    to_be_bytes zero_bytes run step on_path_change push_sent_frame
again_sent =
    build_datagram-ok toy_env 300 3 FrameKind.data_frame hello true moved_sender [] (1 ∷ [])
      (again_text ++ zero_bytes 16) refl refl refl refl

nonces_never_repeat_example :
    (nonce : ℕ) × (nonce2 : ℕ) × IsSealed toy_env nonce sender hello_datagram
    × IsSealed toy_env nonce2 moved_sender again_datagram
    × (nonce < nonce2)
nonces_never_repeat_example =
    nonces_never_repeat toy_env 100 3 FrameKind.data_frame hello true sender hello_datagram
      after_hello path_changes 300 3 FrameKind.data_frame hello true again_datagram
      (sent_state toy_env 300 again_datagram true moved_sender) hello_sent again_sent

sent_nonces_rise_example : IsFresh (run toy_env some_inputs fresh_session)
sent_nonces_rise_example =
    sent_nonces_rise toy_env toy_config 0 some_inputs fresh_session fresh_is_new

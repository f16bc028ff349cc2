-- ===== src/Machine.antt =====
-- ostp-core/src/protocol.rs: the state of one OSTP session, its events and its actions. The parts of
-- `ProtocolMachine` are in the modules below this one. The clock is read once for an event, and the
-- reading is an argument.
pub mod Send
pub mod Gap
pub mod Feedback
pub mod Receive
pub mod Tick
pub mod Events
pub mod Steady
pub mod Session
pub mod Delivery
use ostp.Prelude.{
  ℕ, ◌+◌, ◌-◌, ◌*◌, ◌%◌, max, Bool, true, false, Option, none, some, List, [], ◌∷◌, ◌++◌, leb,
  if◌then◌else◌, All,
}
use ostp.External.{F64, Rng, Hash, Aead, Snow}
use ostp.Outcome.{Outcome, ok, ◌>>=◌}
use ostp.Noise.{NoiseRole, NoiseSession}
use ostp.Noise
use ostp.Congestion.{CongestionController, reset_path}
use ostp.Congestion
use ostp.Framing.Padding.{AdaptivePadder, PaddingStrategy}
use ostp.History.{SentFrame, mark_due}

pub data OstpState : Type 0 where
  init handshaking established closing closed : OstpState

pub data OstpEvent : Type 0 where
  start : OstpEvent
  inbound : List ℕ → OstpEvent
  outbound : ℕ → List ℕ → OstpEvent
  close : OstpEvent
  tick : OstpEvent

mutual
  pub data ProtocolAction : Type 0 where
    send_datagram : List ℕ → ProtocolAction
    deliver_app : ℕ → List ℕ → ProtocolAction
    handshake_payload : List ℕ → Option (List ℕ) → ProtocolAction
    multiple : Actions → ProtocolAction
    noop : ProtocolAction

  -- The `Vec` of `Multiple`.
  pub data Actions : Type 0 where
    end : Actions
    also : ProtocolAction → Actions → Actions

unfoldable pub to_actions : List ProtocolAction → Actions
to_actions [] = Actions.end
to_actions (a ∷ l) = Actions.also a (to_actions l)

unfoldable pub from_actions : Actions → List ProtocolAction
from_actions Actions.end = []
from_actions (Actions.also a l) = a ∷ from_actions l

-- None, one or `Multiple`.
unfoldable pub collate : List ProtocolAction → ProtocolAction
unfolding to_actions
collate [] = ProtocolAction.noop
collate (a ∷ []) = a
collate (a ∷ b ∷ l) = ProtocolAction.multiple (to_actions (a ∷ b ∷ l))

pub record ProtocolConfig : Type 0 where
  pub role : NoiseRole
  pub psk : List ℕ
  pub session_id : ℕ
  pub handshake_payload : List ℕ
  pub max_padding : ℕ
  pub padding_strategy : PaddingStrategy
  pub obfuscation_key : List ℕ
  pub max_reorder : ℕ
  pub max_reorder_buffer : ℕ
  pub ack_delay_ms : ℕ
  pub rto_ms : ℕ
  pub max_retries : ℕ
  pub max_sent_history : ℕ
  pub handshake_pad_min : ℕ
  pub handshake_pad_max : ℕ
  pub mtu : ℕ

-- A cipher is its key. `draws` counts what the random generator gave, and stands for its state.
pub record ProtocolMachine (F S : Type 0) : Type 0 where
  pub role : NoiseRole
  pub state : OstpState
  pub noise : NoiseSession S
  pub send_cipher : Option (List ℕ)
  pub recv_cipher : Option (List ℕ)
  pub send_nonce : ℕ
  pub expected_recv_nonce : ℕ
  pub reorder_buffer : List (ℕ × ProtocolAction)
  pub sent_history : List SentFrame
  pub session_id : ℕ
  pub handshake_payload : List ℕ
  pub padder : AdaptivePadder
  pub obfuscation_key : List ℕ
  pub max_reorder : ℕ
  pub max_reorder_buffer : ℕ
  pub ack_delay : ℕ
  pub rto : ℕ
  pub max_retries : ℕ
  pub max_sent_history : ℕ
  pub ack_pending : Bool
  pub last_ack_sent : ℕ
  pub last_nack_sent : ℕ
  pub last_recv_advance : ℕ
  pub highest_authenticated_recv_nonce : Option ℕ
  pub authenticated_recv_count : ℕ
  pub cc : CongestionController F
  pub handshake_pad_min : ℕ
  pub handshake_pad_max : ℕ
  pub mtu : ℕ
  pub draws : ℕ

-- What a session takes from outside the repository, and the target's largest `usize`.
pub record Env (S : Type 0) : Type 0 where
  pub rng : Rng
  pub hash : Hash
  pub aead : Aead
  pub snow : Snow S
  pub usize_max : ℕ

abbrev pub from_millis : ℕ → ℕ
from_millis ms = ms * 1_000_000

-- What `Instant::now()` reads less an hour, if the clock goes that far back.
abbrev pub hour_before : ℕ → ℕ
hour_before now = if leb 3_600_000_000_000 now then now - 3_600_000_000_000 else now

module _ {F S : Type 0} ⦃f : F64 F⦄ where
  abbrev pub machine : Env S → ProtocolConfig → ℕ → NoiseSession S → ProtocolMachine F S
  machine env config now noise = record {
    role = config.role;
    state = OstpState.init;
    noise = noise;
    send_cipher = none;
    recv_cipher = none;
    send_nonce = 0;
    expected_recv_nonce = 0;
    reorder_buffer = [];
    sent_history = [];
    session_id = config.session_id;
    handshake_payload = config.handshake_payload;
    padder = record {
      mtu_hint = config.mtu;
      max_pad = config.max_padding;
      strategy = config.padding_strategy;
    };
    obfuscation_key = config.obfuscation_key;
    max_reorder = max config.max_reorder 1;
    max_reorder_buffer = max config.max_reorder_buffer 1;
    ack_delay = from_millis (max config.ack_delay_ms 1);
    rto = from_millis (max config.rto_ms 1);
    max_retries = max config.max_retries 1;
    max_sent_history = max config.max_sent_history 1;
    ack_pending = false;
    last_ack_sent = now;
    last_nack_sent = now - 1_000_000_000;
    last_recv_advance = now;
    highest_authenticated_recv_nonce = none;
    authenticated_recv_count = 0;
    cc = Congestion.new config.mtu now;
    handshake_pad_min = max config.handshake_pad_min 8;
    handshake_pad_max =
        max config.handshake_pad_max ((config.handshake_pad_min + 16) % (env.usize_max + 1));
    mtu = config.mtu;
    draws = 0;
  }

  unfoldable pub new : Env S → ProtocolConfig → ℕ → Outcome (ProtocolMachine F S)
  new env config now =
      Noise.new env.snow config.role config.psk >>= λ noise. ok (machine env config now noise)

  unfoldable pub on_path_change : ℕ → ProtocolMachine F S → ProtocolMachine F S
  on_path_change now m = record m {
    cc = reset_path now m.cc;
    sent_history = mark_due (hour_before now) m.sent_history;
    last_nack_sent = hour_before now;
    last_ack_sent = hour_before now;
    ack_pending = true;
  }

  unfoldable pub set_session_keys : ℕ → List ℕ → ProtocolMachine F S → ProtocolMachine F S
  set_session_keys session_id key m = record m { session_id = session_id; obfuscation_key = key }

-- ===== src/Tests/Wire.antt =====
-- The wire formats and the receive sequence on concrete inputs.
use ostp.Prelude.{ℕ, ◌+◌, ◌≡◌, inr, refl, Bool, true, false, some, List, [], ◌∷◌, ◌++◌, arith}
use ostp.Outcome.{ok}
use ostp.Framing.{FrameKind, FramedPacket, encode, decode_zero_copy}
use ostp.Framing.RoundTrip.{IsWellFormed, decode_zero_copy-encode}
use ostp.Framing.Padding.{AdaptivePadder, PaddingStrategy}
use ostp.Relay.{RelayMessage, decode}
use ostp.Relay
use ostp.Relay.RoundTrip.{decode-encode}
use ostp.Obfuscation.{obfuscate_packet_inplace, deobfuscate_packet_inplace}
use ostp.Obfuscation.Masking.{deobfuscate-obfuscate}
use ostp.Reorder.Order.{Arrival, frame, gap_timeout, Window, receive_all, receive_all_in_order}
use ostp.Reorder.Rising.{Rises, IsOrdered}
use ostp.Tests.World.{whole_numbers, zero_hash}

abbrev packet : FramedPacket
packet = record {
  header = record {
    version = 1;
    kind = FrameKind.data_frame;
    stream_id = 3;
    payload_len = 2;
    pad_len = 1;
  };
  payload = 7 ∷ 8 ∷ [];
  padding = 0 ∷ [];
}

packet_good : IsWellFormed packet
packet_good = omega arith

decode_zero_copy-encode_example : decode_zero_copy 65535 (encode 1 2 packet ++ (9 ∷ [])) ≡ ok packet
decode_zero_copy-encode_example =
    decode_zero_copy-encode 65535 1 2 packet (9 ∷ []) packet_good (omega arith)

abbrev short_buf : List ℕ
short_buf = 1 ∷ 2 ∷ 0 ∷ 0 ∷ []

abbrev padder : AdaptivePadder
padder = record { mtu_hint = 1200; max_pad = 64; strategy = PaddingStrategy.fixed 100 }

abbrev any_text : List ℕ → Bool
any_text bytes = true

decode-encode_example :
    decode any_text (Relay.encode (RelayMessage.udp_data (65 ∷ []) (1 ∷ 2 ∷ [])))
    ≡ some (RelayMessage.udp_data (65 ∷ []) (1 ∷ 2 ∷ []))
decode-encode_example =
    decode-encode any_text (RelayMessage.udp_data (65 ∷ []) (1 ∷ 2 ∷ []))
      (omega arith, omega arith, refl)

abbrev thirteen : List ℕ
thirteen = 1 ∷ 2 ∷ 3 ∷ 4 ∷ 5 ∷ 6 ∷ 7 ∷ 8 ∷ 9 ∷ 10 ∷ 11 ∷ 12 ∷ 13 ∷ []

deobfuscate-obfuscate_example :
    deobfuscate_packet_inplace zero_hash
      (5 ∷ [])
      false
      (obfuscate_packet_inplace zero_hash (5 ∷ []) false thirteen)
    ≡ thirteen
deobfuscate-obfuscate_example =
    deobfuscate-obfuscate zero_hash (5 ∷ []) thirteen false (omega arith) (inr (omega arith))

abbrev window : Window
window = record { max_reorder = 8; max_reorder_buffer = 2 }

-- Out of order, repeated, and with a gap that is given up.
abbrev arrivals : List (Arrival ℕ)
arrivals = frame 1 11 ∷ frame 0 10 ∷ frame 1 11 ∷ frame 4 14 ∷ gap_timeout ∷ []

abbrev frames : List (Arrival ℕ)
frames = frame 1 11 ∷ frame 0 10 ∷ frame 1 11 ∷ []

nothing_yet : IsOrdered {A = ℕ} 0 []
nothing_yet = record { small = omega arith; above = tt; below = tt }

receive_all_in_order_example :
    let r = receive_all window arrivals 0 [] in
    Rises 0 r.expected r.delivered × IsOrdered r.expected r.buffer
receive_all_in_order_example =
    receive_all_in_order window arrivals 0 []
      (omega arith, (omega arith, (omega arith, (omega arith, (tt, tt))))) nothing_yet

-- Frame `n` carries `10 + n`.
abbrev IsSent : ℕ × ℕ → Type 0
IsSent (n, a) = a ≡ n + 10

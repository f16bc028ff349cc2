-- ===== src/Tests/Transport.antt =====
-- Congestion control, acknowledgements, the receive sequence and the wire formats on concrete inputs.
use ostp.Tests.World.{whole_numbers}
use ostp.Prelude.{map, take, ℕ, ◌≤◌, ◌≡◌, refl, true, false, List, [], ◌∷◌, length, arith}
use ostp.Outcome.{ok}
use ostp.Congestion.{Phase, CongestionController}
use ostp.Congestion
use ostp.Congestion.Window.{IsBounded, new-IsBounded}
use ostp.History.{SentFrame, retransmit, acked_bytes, retain_unacked}
use ostp.History.Retransmit.{Resent, due_frames, retransmit_charges}
use ostp.History.Acked.{Splits, acknowledged_bytes_leave}
use ostp.Acks.{
  coalesce, nonce_in_ranges, all_ranges, trim_ranges, build_ack_payload, parse_ack_ranges,
}
use ostp.Acks.Coverage.{received, all_ranges_cover, trim_ranges_honest}
use ostp.Acks.RoundTrip.{parse_ack_ranges-build_ack_payload}

abbrev start : CongestionController ℕ
start = Congestion.new 1000 0

abbrev slow : CongestionController ℕ
slow = record start { srtt = 120_000_000_000; min_rtt = 1_000_000_000; rtt_initialized = true }

start-IsBounded : IsBounded start
start-IsBounded = new-IsBounded 1000 0 (omega arith) (omega arith)

abbrev probing : CongestionController ℕ
probing = record start { phase = Phase.probe_bandwidth }

-- A data frame sent twice, an acknowledgement, and a data frame sent once.
abbrev history : List SentFrame
history =
    record { nonce = 4; bytes = 1 ∷ 2 ∷ []; last_sent = 10; retries = 1; is_retransmittable = true }
    ∷ record { nonce = 5; bytes = 3 ∷ []; last_sent = 20; retries = 0; is_retransmittable = false }
    ∷ record {
      nonce = 6;
      bytes = 4 ∷ 5 ∷ [];
      last_sent = 30;
      retries = 0;
      is_retransmittable = true;
    }
    ∷ []

retransmit_charges_example :
    let s = retransmit 9_000_000_000 200 1 history in
    (s.sent ≡ take 1 (map (λ f. f.bytes) (due_frames 9_000_000_000 200 history)))
    × Resent 9_000_000_000 200 history s.frames s.sent
retransmit_charges_example = retransmit_charges 9_000_000_000 200 1 history

acknowledged_bytes_leave_example :
    Splits
      ((0, 5) ∷ [])
      history
      (retain_unacked ((0, 5) ∷ []) history)
      (acked_bytes ((0, 5) ∷ []) history)
acknowledged_bytes_leave_example = acknowledged_bytes_leave ((0, 5) ∷ []) history

all_ranges_cover_example :
    nonce_in_ranges 7 (all_ranges 5 (7 ∷ 8 ∷ 11 ∷ [])) ≡ received 5 (7 ∷ 8 ∷ 11 ∷ []) 7
all_ranges_cover_example = all_ranges_cover 5 (7 ∷ 8 ∷ 11 ∷ []) 7

trim_ranges_honest_example : received 5 (7 ∷ 8 ∷ 11 ∷ []) 8 ≡ true
unfolding nonce_in_ranges trim_ranges all_ranges coalesce
trim_ranges_honest_example = trim_ranges_honest 5 (7 ∷ 8 ∷ 11 ∷ []) 8 refl

parse_ack_ranges-build_ack_payload_example :
    (parse_ack_ranges (build_ack_payload 5 (7 ∷ 8 ∷ 11 ∷ []))
      ≡ ok (trim_ranges (all_ranges 5 (7 ∷ 8 ∷ 11 ∷ []))))
    × (length (trim_ranges (all_ranges 5 (7 ∷ 8 ∷ 11 ∷ []))) ≤ 8)
parse_ack_ranges-build_ack_payload_example =
    parse_ack_ranges-build_ack_payload 5 (7 ∷ 8 ∷ 11 ∷ []) (omega arith)
      (omega arith, (omega arith, (omega arith, tt)))

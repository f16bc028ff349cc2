-- ===== src/Congestion/Growth.antt =====
-- The answers of ostp-core/src/congestion.rs to acknowledgements and losses: the window, the round trip
-- and the pacing rate.
use ostp.Prelude.{
  ℕ, ◌-◌, ◌/◌, max, true, not, ◌&&◌, ◌||◌, ltb, leb, ◌==◌, if◌then◌else◌, mul64, add32, sat_add64,
  sat_mul64,
}
use ostp.External.{F64}
use ostp.Congestion.{
  Phase, CongestionController, min_cwnd_packets, max_cwnd_packets, min_rtt_expiry,
  slow_start_loss_tolerance, slow_start_loss_window, duration_add, micros,
}

module _ {F : Type 0} ⦃f : F64 F⦄ where
  unfoldable pub clamp_cwnd : CongestionController F → CongestionController F
  clamp_cwnd c =
      let ceiling : ℕ = sat_mul64 max_cwnd_packets c.mtu in
      if ltb ceiling c.cwnd then record c { cwnd = ceiling } else c

  -- The ratio of the smoothed to the least round trip, once there is a sample.
  unfoldable pub inflation : CongestionController F → F
  inflation c =
      if c.rtt_initialized && not (c.min_rtt == 0)
      then f.div (f.as_secs c.srtt) (f.as_secs c.min_rtt)
      else f.of_nat 1

  -- The arms of `match self.phase` in `grow_window`.
  unfoldable pub grow_by_phase : Phase → F → ℕ → CongestionController F → CongestionController F
  unfolding clamp_cwnd
  grow_by_phase Phase.slow_start ratio bytes c =
      if f.ge ratio (f.of_nat 2)
      then clamp_cwnd (record c { ssthresh = c.cwnd; phase = Phase.probe_bandwidth })
      else let grown : ℕ = sat_add64 c.cwnd bytes in
        clamp_cwnd (record c {
          cwnd = grown;
          phase = if leb c.ssthresh grown then Phase.probe_bandwidth else Phase.slow_start;
        })
  grow_by_phase Phase.probe_bandwidth ratio bytes c =
      clamp_cwnd (record c { cwnd = sat_add64 c.cwnd (mul64 bytes c.mtu / max c.cwnd 1) })

  -- The arm of `grow_window` for a severe standing queue.
  unfoldable pub drain_queue : CongestionController F → CongestionController F
  unfolding clamp_cwnd
  drain_queue c =
      let drained : ℕ = max (c.cwnd / 2) (mul64 min_cwnd_packets c.mtu) in
      clamp_cwnd (record c { cwnd = drained; ssthresh = drained; phase = Phase.probe_bandwidth })

  unfoldable pub grow_window : ℕ → CongestionController F → CongestionController F
  unfolding inflation drain_queue grow_by_phase
  grow_window bytes c =
      if f.ge (inflation c) (f.of_nat 4)
      then drain_queue c
      else grow_by_phase c.phase (inflation c) bytes c

  unfoldable pub update_pacing_rate : CongestionController F → CongestionController F
  update_pacing_rate c = record c { pacing_rate = mul64 c.cwnd 1_000_000 / micros c.min_rtt }

  unfoldable pub update_min_rtt : ℕ → ℕ → CongestionController F → CongestionController F
  update_min_rtt rtt now c =
      if ltb rtt c.min_rtt || leb min_rtt_expiry (now - c.min_rtt_stamp)
      then record c { min_rtt = rtt; min_rtt_stamp = now }
      else c

  unfoldable pub update_rtt : ℕ → ℕ → CongestionController F → CongestionController F
  unfolding update_min_rtt
  update_rtt rtt now c0 =
      let c = update_min_rtt rtt now c0 in
      if not c.rtt_initialized
      then record c { srtt = rtt; rttvar = rtt / 2; rtt_initialized = true }
      else let diff : ℕ = if ltb c.srtt rtt then rtt - c.srtt else c.srtt - rtt in
        record c {
          rttvar = duration_add (c.rttvar - c.rttvar / 4) (diff / 4);
          srtt = duration_add (c.srtt - c.srtt / 8) (rtt / 8);
        }

  -- The accounting that both ACK paths begin with.
  unfoldable pub account_ack : ℕ → CongestionController F → CongestionController F
  account_ack bytes c = record c {
    bytes_in_flight = c.bytes_in_flight - bytes;
    total_acked = sat_add64 c.total_acked bytes;
  }

  unfoldable pub on_ack_no_rtt : ℕ → ℕ → CongestionController F → CongestionController F
  unfolding account_ack grow_window update_pacing_rate
  on_ack_no_rtt now bytes c =
      record (update_pacing_rate (grow_window bytes (account_ack bytes c))) { last_ack_time = now }

  unfoldable pub on_ack : ℕ → ℕ → ℕ → CongestionController F → CongestionController F
  unfolding account_ack update_rtt grow_window update_pacing_rate
  on_ack now bytes rtt c =
      record (update_pacing_rate (grow_window bytes (update_rtt rtt now (account_ack bytes c)))) {
        last_ack_time = now;
      }

  -- Ages out the loss window of slow start and counts the loss.
  unfoldable pub count_loss : ℕ → CongestionController F → CongestionController F
  count_loss now c =
      if ltb slow_start_loss_window (now - c.slow_start_loss_window_start)
      then record c { slow_start_losses = 1; slow_start_loss_window_start = now }
      else record c { slow_start_losses = add32 c.slow_start_losses 1 }

  unfoldable pub loss_by_phase : Phase → ℕ → CongestionController F → CongestionController F
  unfolding count_loss
  loss_by_phase Phase.slow_start now c0 =
      let c = count_loss now c0 in
      if leb slow_start_loss_tolerance c.slow_start_losses
      then record c {
        ssthresh = c.cwnd / 2;
        cwnd = max (c.cwnd / 2) (mul64 min_cwnd_packets c.mtu);
        phase = Phase.probe_bandwidth;
      }
      else record c { cwnd = max (mul64 c.cwnd 8 / 10) (mul64 min_cwnd_packets c.mtu) }
  loss_by_phase Phase.probe_bandwidth now c = record c {
    cwnd = max (mul64 c.cwnd 7 / 10) (mul64 min_cwnd_packets c.mtu);
  }

  unfoldable pub on_loss : ℕ → ℕ → CongestionController F → CongestionController F
  unfolding loss_by_phase update_pacing_rate
  on_loss now bytes_lost c = update_pacing_rate (
      loss_by_phase c.phase now (record c {
        bytes_in_flight = c.bytes_in_flight - bytes_lost;
        loss_count = add32 c.loss_count 1;
      }))

-- ===== src/Congestion.antt =====
-- ostp-core/src/congestion.rs: the congestion controller of one session. `Duration` and `Instant`
-- are nanoseconds; each operation that reads the clock takes the reading as an argument.
pub mod Growth
pub mod Window
pub mod Rtt
use ostp.Prelude.{
  ℕ, ◌+◌, ◌-◌, ◌*◌, ◌/◌, ◌%◌, ◌^◌, min, max, Bool, false, ltb, if◌then◌else◌, u64_max, mul64,
  sat_add64,
}
use ostp.External.{F64}

pub data Phase : Type 0 where
  slow_start probe_bandwidth : Phase

pub record CongestionController (F : Type 0) : Type 0 where
  pub cwnd : ℕ
  pub ssthresh : ℕ
  pub phase : Phase
  pub min_rtt : ℕ
  pub srtt : ℕ
  pub rttvar : ℕ
  pub rtt_initialized : Bool
  pub bytes_in_flight : ℕ
  pub total_acked : ℕ
  pub last_ack_time : ℕ
  pub loss_count : ℕ
  pub pacing_rate : ℕ
  pub pacing_tokens : F
  pub pacing_last_refill : ℕ
  pub mtu : ℕ
  pub min_rtt_stamp : ℕ
  pub slow_start_losses : ℕ
  pub slow_start_loss_window_start : ℕ

abbrev pub initial_cwnd_packets : ℕ
initial_cwnd_packets = 32

abbrev pub min_cwnd_packets : ℕ
min_cwnd_packets = 2

abbrev pub max_cwnd_packets : ℕ
max_cwnd_packets = 1024

abbrev pub min_rtt_expiry : ℕ
min_rtt_expiry = 10_000_000_000

abbrev pub pacing_burst_time : ℕ
pacing_burst_time = 10_000_000

abbrev pub rto_min : ℕ
rto_min = 50_000_000

abbrev pub rto_max : ℕ
rto_max = 16_000_000_000

abbrev pub initial_rtt : ℕ
initial_rtt = 30_000_000

abbrev pub slow_start_loss_tolerance : ℕ
slow_start_loss_tolerance = 3

abbrev pub slow_start_loss_window : ℕ
slow_start_loss_window = 500_000_000

-- `Duration::MAX`
abbrev pub duration_max : ℕ
duration_max = 2 ^ 64 * 1_000_000_000 - 1

-- `Duration::saturating_add` and `saturating_mul`
abbrev pub duration_add : ℕ → ℕ → ℕ
duration_add a b = min (a + b) duration_max

abbrev pub duration_mul : ℕ → ℕ → ℕ
duration_mul a k = min (a * k) duration_max

-- `d.as_micros().max(1) as u64`
abbrev pub micros : ℕ → ℕ
micros d = max (d / 1000) 1 % 2 ^ 64

-- `Ord::clamp`, for bounds in order
abbrev pub clamp : ℕ → ℕ → ℕ → ℕ
clamp lo hi x = if ltb x lo then lo else if ltb hi x then hi else x

module _ {F : Type 0} ⦃f : F64 F⦄ where
  unfoldable pub new : ℕ → ℕ → CongestionController F
  new mtu now =
      let initial_cwnd : ℕ = mul64 initial_cwnd_packets mtu in
      record {
        cwnd = initial_cwnd;
        ssthresh = u64_max;
        phase = Phase.slow_start;
        min_rtt = initial_rtt;
        srtt = initial_rtt;
        rttvar = initial_rtt / 2;
        rtt_initialized = false;
        bytes_in_flight = 0;
        total_acked = 0;
        last_ack_time = now;
        loss_count = 0;
        pacing_rate = mul64 initial_cwnd 1_000_000 / micros initial_rtt;
        pacing_tokens = f.of_nat (mul64 initial_cwnd_packets mtu);
        pacing_last_refill = now;
        mtu = mtu;
        min_rtt_stamp = now;
        slow_start_losses = 0;
        slow_start_loss_window_start = now;
      }

  unfoldable pub reset_path : ℕ → CongestionController F → CongestionController F
  unfolding new
  reset_path now c = record (new c.mtu now) {
    bytes_in_flight = c.bytes_in_flight;
    total_acked = c.total_acked;
  }

  unfoldable pub pacing_burst : CongestionController F → F
  pacing_burst c =
      f.fmax (f.mul (f.of_nat c.pacing_rate) (f.as_secs pacing_burst_time))
        (f.of_nat (mul64 c.mtu 4))

  unfoldable pub pacing_available : ℕ → CongestionController F → F
  unfolding pacing_burst
  pacing_available now c =
      f.fmin
        (f.add c.pacing_tokens
          (f.mul (f.as_secs (now - c.pacing_last_refill)) (f.of_nat c.pacing_rate)))
        (pacing_burst c)

  unfoldable pub can_pace_packet : ℕ → CongestionController F → Bool
  unfolding pacing_available
  can_pace_packet now c = f.ge (pacing_available now c) (f.of_nat c.mtu)

  -- The allowance before the deduction is the one that `pacing_available` reports.
  unfoldable pub consume_pacing : ℕ → ℕ → CongestionController F → CongestionController F
  unfolding pacing_burst
  consume_pacing now bytes c = record c {
    pacing_last_refill = now;
    pacing_tokens =
        f.sub
          (f.fmin
            (f.add c.pacing_tokens
              (f.mul (f.as_secs (now - c.pacing_last_refill)) (f.of_nat c.pacing_rate)))
            (pacing_burst c))
          (f.of_nat bytes);
  }

  unfoldable pub cwnd_packets : CongestionController F → ℕ
  cwnd_packets c = max (c.cwnd / c.mtu) min_cwnd_packets

  unfoldable pub rto : CongestionController F → ℕ
  rto c = clamp rto_min rto_max (duration_add c.srtt (duration_mul c.rttvar 4))

  unfoldable pub available_cwnd : CongestionController F → ℕ
  available_cwnd c = c.cwnd - c.bytes_in_flight

  unfoldable pub retransmit_budget : CongestionController F → ℕ
  unfolding cwnd_packets
  retransmit_budget c = min (max (cwnd_packets c / 4) 2) 64

  unfoldable pub can_send : CongestionController F → Bool
  can_send c = ltb c.bytes_in_flight c.cwnd

  unfoldable pub on_send : ℕ → ℕ → CongestionController F → CongestionController F
  unfolding consume_pacing
  on_send now bytes c =
      consume_pacing now bytes (record c { bytes_in_flight = sat_add64 c.bytes_in_flight bytes })

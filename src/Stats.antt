-- ===== src/Stats.antt =====
-- `TestStats` of MyIperf/include/myiperf/Protocol.h. `double` values are of a type that the model
-- takes as a parameter, with the operations that the code uses. The `long long` counters are numbers
-- without a bound: their overflow would be undefined behaviour.
use my_iperf.Prelude.{ℕ, Bool}

-- Floating point, as the program uses it. Durations are differences of clock readings, in ticks.
pub record Floats : Type 1 where
  pub Real : Type 0
  pub zero_real : Real
  -- `std::chrono::duration<double>(t).count()`
  pub seconds : ℕ → Real
  -- `x > 0`
  pub is_positive : Real → Bool
  -- `static_cast<double>(bytes) * 8.0 / duration / 1'000'000.0`
  pub mbps : ℕ → Real → Real

pub record TestStats (Real : Type 0) : Type 0 where
  pub total_bytes_sent : ℕ
  pub total_packets_sent : ℕ
  pub total_bytes_received : ℕ
  pub total_packets_received : ℕ
  pub failed_checksum_count : ℕ
  pub sequence_error_count : ℕ
  pub content_mismatch_count : ℕ
  pub duration : Real
  pub throughput_mbps : Real

-- The default constructor.
abbrev pub zero_stats : (f : Floats) → TestStats f.Real
zero_stats f = record {
  total_bytes_sent = 0;
  total_packets_sent = 0;
  total_bytes_received = 0;
  total_packets_received = 0;
  failed_checksum_count = 0;
  sequence_error_count = 0;
  content_mismatch_count = 0;
  duration = f.zero_real;
  throughput_mbps = f.zero_real;
}

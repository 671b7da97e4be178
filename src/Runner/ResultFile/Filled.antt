-- ===== src/Runner/ResultFile/Filled.antt =====
-- TestRunner/ProcessManager.cpp, `ParseResultFile`: the counters that it takes over from the phases of
-- MyIperf/include/myiperf/TestRunResult.h.
use my_iperf.Prelude.{◌≡◌, ◌<◌, ◌^◌, Text, text_eq_refl, false, Option, some}
use my_iperf.Prelude.Int.{pos}
use my_iperf.Result.{ok}
use my_iperf.Json.{JsonLib}
use my_iperf.Stats.{Floats, TestStats}
use my_iperf.StatsJson.{TextLib, stats_to_json}
use my_iperf.StatsJson.RoundTrip.{at-some, get_at-some}
use my_iperf.RunResult.{TestPhaseResult}
use my_iperf.RunResult.RunJson.{phase_to_json}
use my_iperf.Runner.{TestResult}
use my_iperf.Runner.Messages.{LongLib}
use my_iperf.Runner.ResultFile.{fill_from_stats, fill_from_phases}

module _ {f : Floats} {lib : JsonLib} {texts : TextLib f lib} (longs : LongLib texts)
    (join : Text → Text → Text) (open_file : Text → Option Text) where
  open lib use {
    Json, member, with_member, of_text, of_bool, get_text, get_bool, member-with_member,
    get_text-of_text, get_bool-of_bool,
  }
  open texts use {of_count, of_real, get_real, parse, IsFinite, get_real-of_real}
  open longs use {get_long, get_long-of_count}

  -- The counters of received packets fit `long long` and the durations are finite.
  pub record IsWritable (s : TestStats f.Real) : Type 0 where
    pub bytes_long : s.total_bytes_received < 2 ^ 63
    pub packets_long : s.total_packets_received < 2 ^ 63
    pub checksums_long : s.failed_checksum_count < 2 ^ 63
    pub sequence_long : s.sequence_error_count < 2 ^ 63
    pub contents_long : s.content_mismatch_count < 2 ^ 63
    pub duration_finite : IsFinite s.duration
    pub throughput_finite : IsFinite s.throughput_mbps

  -- `r` with the counters of a receiver.
  abbrev pub received : TestStats f.Real → TestResult f.Real → TestResult f.Real
  received s r = record r {
    total_bytes = pos s.total_bytes_received;
    total_packets = pos s.total_packets_received;
    duration = s.duration;
    throughput = s.throughput_mbps;
    sequence_errors = pos s.sequence_error_count;
    checksum_errors = pos s.failed_checksum_count;
    content_mismatches = pos s.content_mismatch_count;
  }

  fill_from_stats-received :
      (s : TestStats f.Real) (r : TestResult f.Real)
      → IsWritable s
      → fill_from_stats longs join open_file (stats_to_json texts s) false r ≡ ok (received s r)
  unfolding fill_from_stats stats_to_json
  fill_from_stats-received s r h =
      let j = stats_to_json texts s in
      rw (
        get_at-some texts "totalBytesReceived" get_long j _ _ (simp member-with_member)
            (get_long-of_count s.total_bytes_received h.bytes_long),
        get_at-some texts "totalPacketsReceived" get_long j _ _ (simp member-with_member)
            (get_long-of_count s.total_packets_received h.packets_long),
        get_at-some texts "duration" get_real j _ _ (simp member-with_member)
            (get_real-of_real s.duration h.duration_finite),
        get_at-some texts "throughputMbps" get_real j _ _ (simp member-with_member)
            (get_real-of_real s.throughput_mbps h.throughput_finite),
        get_at-some texts "sequenceErrorCount" get_long j _ _ (simp member-with_member)
            (get_long-of_count s.sequence_error_count h.sequence_long),
        get_at-some texts "failedChecksumCount" get_long j _ _ (simp member-with_member)
            (get_long-of_count s.failed_checksum_count h.checksums_long),
        get_at-some texts "contentMismatchCount" get_long j _ _ (simp member-with_member)
            (get_long-of_count s.content_mismatch_count h.contents_long),
      )

  pub fill_from_phases-received :
      (own other : _) (root : Json) (p : TestPhaseResult f.Real) (r : TestResult f.Real)
      → member own root ≡ some (phase_to_json texts p)
      → IsWritable p.receiver_stats
      → fill_from_phases longs join open_file own other p.receiver_role root r
        ≡ ok (received p.receiver_stats r)
  unfolding fill_from_phases phase_to_json
  fill_from_phases-received own other root p r e h =
      let j = phase_to_json texts p in
      rw (
        at-some texts own root j e,
        get_at-some texts "receiverRole" get_text j _ _ (simp member-with_member)
            (get_text-of_text p.receiver_role),
        at-some texts "receiverStats" j (stats_to_json texts p.receiver_stats)
            (simp member-with_member),
        text_eq_refl p.receiver_role,
        fill_from_stats-received p.receiver_stats r h,
      )

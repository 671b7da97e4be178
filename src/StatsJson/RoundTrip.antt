-- ===== src/StatsJson/RoundTrip.antt =====
-- Writing statistics as a message and reading them from it.
use my_iperf.Prelude.{ℕ, ◌≡◌, String, some, ◌∙◌, ap}
use my_iperf.Result.{Result, ok, ◌>>=◌}
use my_iperf.Json.{JsonLib}
use my_iperf.Stats.{Floats, TestStats}
use my_iperf.StatsJson.{
  TextLib, stats_to_json, get_at, at, stats_from_json, parse_stats_payload, stats_to_payload,
}

module _ {f : Floats} {lib : JsonLib} (texts : TextLib f lib) where
  open lib use {Json, member, with_member, member-with_member}
  open texts use {
    of_count, of_real, get_count, get_real, get_count-of_count, get_real-of_real, object-IsPlain,
    of_count-IsPlain, of_real-IsPlain, with_member-IsPlain, parse-dump, IsFinite, IsPlain,
  }

  pub at-some : (key : String) (j v : Json) → member key j ≡ some v → at texts key j ≡ ok v
  unfolding at
  at-some key j v e = rw (e, at)

  pub get_at-some :
      {A : Type 0} (key : String) (get : Json → Result A) (j v : Json) (x : A)
      → member key j ≡ some v
      → get v ≡ ok x
      → get_at texts key get j ≡ ok x
  unfolding get_at
  get_at-some key get j v x e g = rw (at-some key j v e, get_at) g

  add_count :
      (k : String) (n : ℕ) (root : Json) → IsPlain root → IsPlain (with_member k (of_count n) root)
  add_count k n root h = with_member-IsPlain k _ root (of_count-IsPlain n) h

  stats_to_json-IsPlain :
      (s : TestStats f.Real)
      → IsFinite s.duration
      → IsFinite s.throughput_mbps
      → IsPlain (stats_to_json texts s)
  unfolding stats_to_json
  stats_to_json-IsPlain s d t =
      let reals =
        with_member-IsPlain _ _ _ (of_real-IsPlain _ d)
          (with_member-IsPlain _ _ _ (of_real-IsPlain _ t) object-IsPlain) in
      add_count _ _ _ (
        add_count _ _ _ (
          add_count _ _ _
            (add_count _ _ _ (add_count _ _ _ (add_count _ _ _ (add_count _ _ _ reals))))))

  module _ (s : TestStats f.Real) where
    count_read :
        (key : String) (n : ℕ)
        → member key (stats_to_json texts s) ≡ some (of_count n)
        → get_at texts key get_count (stats_to_json texts s) ≡ ok n
    count_read key n e = get_at-some key get_count _ _ n e (get_count-of_count n)

    real_read :
        (key : String) (x : f.Real)
        → IsFinite x
        → member key (stats_to_json texts s) ≡ some (of_real x)
        → get_at texts key get_real (stats_to_json texts s) ≡ ok x
    real_read key x h e = get_at-some key get_real _ _ x e (get_real-of_real x h)

    stats_from_json-to_json :
        IsFinite s.duration
        → IsFinite s.throughput_mbps
        → stats_from_json texts (stats_to_json texts s) ≡ ok s
    unfolding stats_from_json stats_to_json
    stats_from_json-to_json d t = rw (
      count_read "totalBytesSent" s.total_bytes_sent (simp member-with_member),
      count_read "totalPacketsSent" s.total_packets_sent (simp member-with_member),
      count_read "totalBytesReceived" s.total_bytes_received (simp member-with_member),
      count_read "totalPacketsReceived" s.total_packets_received (simp member-with_member),
      count_read "failedChecksumCount" s.failed_checksum_count (simp member-with_member),
      count_read "sequenceErrorCount" s.sequence_error_count (simp member-with_member),
      count_read "contentMismatchCount" s.content_mismatch_count (simp member-with_member),
      real_read "duration" s.duration d (simp member-with_member),
      real_read "throughputMbps" s.throughput_mbps t (simp member-with_member),
    )

  -- Statistics with finite floating-point fields, written by one side as a message, are what the
  -- other side reads from it.
  pub parse_stats_payload-to_payload :
      (s : TestStats f.Real)
      → IsFinite s.duration
      → IsFinite s.throughput_mbps
      → parse_stats_payload texts (stats_to_payload texts s) ≡ ok s
  unfolding parse_stats_payload stats_to_payload
  parse_stats_payload-to_payload s d t =
      ap (λ j. j >>= stats_from_json texts) (parse-dump _ (stats_to_json-IsPlain s d t))
      ∙ stats_from_json-to_json s d t

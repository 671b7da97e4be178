-- ===== src/Examples/Verdicts.antt =====
-- Statistics and the verdict on a run.
use my_iperf.Prelude.{ℕ, text, List, [], ◌∷◌, true, false, ◌≡◌, refl, arith, is_empty, ◌↔◌}
use my_iperf.Prelude.Int.{◌*ℤ◌}
use my_iperf.Stats.{TestStats, zero_stats}
use my_iperf.Parser.{ParsedPacket}
use my_iperf.ReceiveStats
use my_iperf.ReceiveStats.{PacketReceiveStats, on_data_packets}
use my_iperf.ReceiveStats.Sequence.{IsConsecutive, sequence_errors_iff}
use my_iperf.ReceiveStats.Totals.{on_data_packets_totals}
use my_iperf.Dispatcher.{Sinks, dispatch}
use my_iperf.Dispatcher.Routes.{dispatch_routes, routed}
use my_iperf.RunResult.{State, Snapshot, build_current_result, validate_receiver_stats}
use my_iperf.RunResult.Judged.{
  IsClean, validate-iff-IsClean, success-iff-IsClean, failure_reason-empty,
}
use my_iperf.Examples.Inputs.{ticks, small_run, quiet, fin}

abbrev seen : TestStats ℕ
seen = record (zero_stats ticks) { total_packets_received = 2; total_bytes_received = 48 }

abbrev finished_run : Snapshot ℕ
finished_run = record {
  run_id = text "7";
  started_at = text "";
  result_export_warning = [];
  state = State.finished;
  config = small_run;
  client_stats_phase1 = zero_stats ticks;
  server_stats_phase1 = seen;
  client_stats_phase2 = seen;
  server_stats_phase2 = zero_stats ticks;
}

seen-IsClean : IsClean seen small_run
unfolding ◌*ℤ◌
seen-IsClean = record {
  packets = λ h. refl;
  bytes = λ h. refl;
  checksums = refl;
  sequence = refl;
  content = refl;
}

validate-iff-IsClean_example :
    (is_empty (validate_receiver_stats seen small_run) ≡ true) ↔ IsClean seen small_run
validate-iff-IsClean_example = validate-iff-IsClean seen small_run (omega arith)

success-iff-IsClean_example : (build_current_result [] [] finished_run).success ≡ true
success-iff-IsClean_example =
    (success-iff-IsClean [] [] finished_run (omega arith)).1 (refl, seen-IsClean, seen-IsClean)

failure_reason-empty_example :
    is_empty (build_current_result [] (text "x") finished_run).failure_reason ≡ false
unfolding build_current_result validate_receiver_stats ◌*ℤ◌
failure_reason-empty_example = failure_reason-empty [] (text "x") finished_run

abbrev two_packets : List (ℕ × ParsedPacket)
two_packets = (10, fin) ∷ (11, fin) ∷ []

sequence_errors_iff_example :
    ((on_data_packets (ReceiveStats.reset 5) two_packets).sequence_error_count
      ≡ (ReceiveStats.reset 5).sequence_error_count)
    ↔ IsConsecutive (ReceiveStats.reset 5).expected_packet_counter two_packets
sequence_errors_iff_example = sequence_errors_iff (ReceiveStats.reset 5) two_packets

on_data_packets_totals_example :
    (on_data_packets (ReceiveStats.reset 5) two_packets).total_packets_received ≡ 2
unfolding ReceiveStats.reset
on_data_packets_totals_example = (on_data_packets_totals (ReceiveStats.reset 5) two_packets).3

abbrev sinks : Sinks
sinks = record { messages = quiet; stats = ReceiveStats.reset 5 }

dispatch_routes_example : dispatch (λ a t. t) sinks two_packets ≡ routed two_packets sinks
dispatch_routes_example = dispatch_routes sinks two_packets

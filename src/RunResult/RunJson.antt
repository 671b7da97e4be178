-- ===== src/RunResult/RunJson.antt =====
-- MyIperf/include/myiperf/TestRunResult.h: the result of a run as JSON.
use my_iperf.Json.{JsonLib}
use my_iperf.Stats.{Floats}
use my_iperf.StatsJson.{TextLib, stats_to_json}
use my_iperf.Config.{to_json}
use my_iperf.RunResult.{TestPhaseResult, TestRunResult}

module _ {f : Floats} {lib : JsonLib} (texts : TextLib f lib) where
  open lib use {Json, object, with_member, of_text, of_bool}

  unfoldable pub phase_to_json : TestPhaseResult f.Real → Json
  phase_to_json p = with_member "failureReason" (of_text p.failure_reason) (
      with_member "success" (of_bool p.success) (
        with_member "receiverStats" (stats_to_json texts p.receiver_stats) (
          with_member "senderStats" (stats_to_json texts p.sender_stats) (
            with_member "receiverRole" (of_text p.receiver_role) (
              with_member "senderRole" (of_text p.sender_role)
                (with_member "phaseName" (of_text p.phase_name) object))))))

  unfoldable pub run_to_json : TestRunResult f.Real → Json
  unfolding phase_to_json
  run_to_json r = with_member "phase2" (phase_to_json r.phase2) (
      with_member "phase1" (phase_to_json r.phase1) (
        with_member "config" (to_json lib r.config) (
          with_member "resultExportWarning" (of_text r.result_export_warning) (
            with_member "failureReason" (of_text r.failure_reason) (
              with_member "success" (of_bool r.success) (
                with_member "finalState" (of_text r.final_state) (
                  with_member "finishedAt" (of_text r.finished_at) (
                    with_member "startedAt" (of_text r.started_at) (
                      with_member "role" (of_text r.role) (
                        with_member "runId" (of_text r.run_id)
                          (with_member "schemaVersion" (of_text r.schema_version) object)))))))))))

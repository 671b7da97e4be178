-- ===== src/RunResult.antt =====
-- MyIperf/src/myiperf/TestController.cpp, the helpers without state, and
-- MyIperf/include/myiperf/TestRunResult.h: how a run is judged from its statistics.
pub mod Judged
pub mod RunJson
use my_iperf.Prelude.{
  ℕ, ◌*◌, List, [], ◌∷◌, ◌++◌, Bool, true, false, not, ◌&&◌, Text, text, is_empty, to_string, ltb,
  ◌==◌, if◌then◌else◌,
}
use my_iperf.Prelude.Int.{ℤ, pos, negsuc, ltb_ℤ, eqb_ℤ, to_string_ℤ, ◌*ℤ◌}
use my_iperf.Config.{Config, TestMode}
use my_iperf.Stats.{TestStats}

pub data State : Type 0 where
  idle initializing connecting sending_config waiting_for_ack accepting : State
  waiting_for_config running_test finishing exchanging_stats : State
  waiting_for_client_ready running_server_test waiting_for_server_fin : State
  server_test_finishing exchanging_server_stats waiting_for_shutdown_ack : State
  finished errored : State

unfoldable pub state_to_string : State → Text
state_to_string State.idle = text "IDLE"
state_to_string State.initializing = text "INITIALIZING"
state_to_string State.connecting = text "CONNECTING"
state_to_string State.sending_config = text "SENDING_CONFIG"
state_to_string State.waiting_for_ack = text "WAITING_FOR_ACK"
state_to_string State.accepting = text "ACCEPTING"
state_to_string State.waiting_for_config = text "WAITING_FOR_CONFIG"
state_to_string State.running_test = text "RUNNING_TEST"
state_to_string State.finishing = text "FINISHING"
state_to_string State.exchanging_stats = text "EXCHANGING_STATS"
state_to_string State.waiting_for_client_ready = text "WAITING_FOR_CLIENT_READY"
state_to_string State.running_server_test = text "RUNNING_SERVER_TEST"
state_to_string State.waiting_for_server_fin = text "WAITING_FOR_SERVER_FIN"
state_to_string State.server_test_finishing = text "SERVER_TEST_FINISHING"
state_to_string State.exchanging_server_stats = text "EXCHANGING_SERVER_STATS"
state_to_string State.waiting_for_shutdown_ack = text "WAITING_FOR_SHUTDOWN_ACK"
state_to_string State.finished = text "FINISHED"
state_to_string State.errored = text "ERRORED"

abbrev pub is_finished : State → Bool
is_finished State.finished = true
is_finished _ = false

abbrev pub role_string : TestMode → Text
role_string TestMode.client = text "CLIENT"
role_string TestMode.server = text "SERVER"

unfoldable pub combine_reasons : Text → Text → Text
combine_reasons left right =
    if is_empty left then right else if is_empty right then left else left ++ text "; " ++ right

-- `if (test) reason = combineReasons(reason, more);`
abbrev pub add_reason : Bool → Text → Text → Text
add_reason test more reason = if test then combine_reasons reason more else reason

mismatch : Text → ℕ → ℤ → Text
mismatch what rx exp =
    what
    ++ text " count mismatch (Rx: "
    ++ to_string rx
    ++ text ", Exp: "
    ++ to_string_ℤ exp
    ++ text ")"

detected : Text → ℕ → Text
detected what n = what ++ text " detected (" ++ to_string n ++ text ")"

unfoldable pub validate_receiver_stats : {R : Type 0} → TestStats R → Config → Text
unfolding mismatch detected
validate_receiver_stats receiver config =
    let expected_packets = config.num_packets in
    let expected_bytes =
      if ltb_ℤ (pos 0) expected_packets then config.packet_size *ℤ expected_packets else pos 0 in
    add_reason (ltb 0 receiver.content_mismatch_count)
      (detected (text "Content mismatches") receiver.content_mismatch_count)
      (add_reason (ltb 0 receiver.sequence_error_count)
        (detected (text "Sequence errors") receiver.sequence_error_count)
        (add_reason (ltb 0 receiver.failed_checksum_count)
          (detected (text "Checksum errors") receiver.failed_checksum_count)
          (add_reason
            (ltb_ℤ (pos 0) expected_bytes
              && not (eqb_ℤ (pos receiver.total_bytes_received) expected_bytes))
            (mismatch (text "Byte") receiver.total_bytes_received expected_bytes)
            (add_reason
              (ltb_ℤ (pos 0) expected_packets
                && not (eqb_ℤ (pos receiver.total_packets_received) expected_packets))
              (mismatch (text "Packet") receiver.total_packets_received expected_packets) []))))

pub record TestPhaseResult (R : Type 0) : Type 0 where
  pub phase_name : Text
  pub sender_role : Text
  pub receiver_role : Text
  pub sender_stats : TestStats R
  pub receiver_stats : TestStats R
  pub success : Bool
  pub failure_reason : Text

pub record TestRunResult (R : Type 0) : Type 0 where
  pub schema_version : Text
  pub run_id : Text
  pub role : Text
  pub started_at : Text
  pub finished_at : Text
  pub final_state : Text
  pub success : Bool
  pub failure_reason : Text
  pub result_export_warning : Text
  pub config : Config
  pub phase1 : TestPhaseResult R
  pub phase2 : TestPhaseResult R

-- What `buildCurrentResult` reads of the controller.
pub record Snapshot (R : Type 0) : Type 0 where
  pub run_id : Text
  pub started_at : Text
  pub result_export_warning : Text
  pub state : State
  pub config : Config
  pub client_stats_phase1 : TestStats R
  pub server_stats_phase1 : TestStats R
  pub client_stats_phase2 : TestStats R
  pub server_stats_phase2 : TestStats R

module _ {R : Type 0} where
  phase_result : Text → Text → Text → TestStats R → TestStats R → Config → TestPhaseResult R
  phase_result name sender receiver sender_stats receiver_stats config =
      let reason = validate_receiver_stats receiver_stats config in
      record {
        phase_name = name;
        sender_role = sender;
        receiver_role = receiver;
        sender_stats = sender_stats;
        receiver_stats = receiver_stats;
        success = is_empty reason;
        failure_reason = reason;
      }

  -- `failureReason`, then the state, then the phases.
  overall_reason : Text → State → TestPhaseResult R → TestPhaseResult R → Text
  overall_reason reason state phase1 phase2 =
      add_reason (not phase2.success) (text "Phase 2 failed: " ++ phase2.failure_reason) (
        add_reason (not phase1.success) (text "Phase 1 failed: " ++ phase1.failure_reason) (
          add_reason (not (is_finished state)) (text "Final state is " ++ state_to_string state)
            reason))

  -- `now` is the formatted time.
  unfoldable pub build_current_result : Text → Text → Snapshot R → TestRunResult R
  unfolding phase_result overall_reason
  build_current_result now reason c =
      let phase1 =
        phase_result (text "client_to_server") (text "CLIENT") (text "SERVER") c.client_stats_phase1
          c.server_stats_phase1 c.config in
      let phase2 =
        phase_result (text "server_to_client") (text "SERVER") (text "CLIENT") c.server_stats_phase2
          c.client_stats_phase2 c.config in
      record {
        schema_version = text "1";
        run_id = c.run_id;
        role = role_string c.config.mode;
        started_at = c.started_at;
        finished_at = now;
        final_state = state_to_string c.state;
        success = is_finished c.state && (phase1.success && phase2.success);
        failure_reason = overall_reason reason c.state phase1 phase2;
        result_export_warning = c.result_export_warning;
        config = c.config;
        phase1 = phase1;
        phase2 = phase2;
      }

-- ===== src/Runner/ResultFile/Written.antt =====
-- TestRunner/ProcessManager.cpp, `ParseResultFile`, on what MyIperf/src/myiperf/TestController.cpp,
-- `buildCurrentResult`, and MyIperf/include/myiperf/TestRunResult.h put into the file.
use my_iperf.Prelude.{
  ◌≡◌, refl, ap, ◌∙◌, Text, text, text_eq, text_eq_refl, Bool, true, false, Option, some, [], ◌∷◌,
  ◌++◌, is_empty, if◌then◌else◌,
}
use my_iperf.Result.{ok, throw, ◌>>=◌}
use my_iperf.Json.{JsonLib}
use my_iperf.Stats.{Floats, TestStats}
use my_iperf.StatsJson.{TextLib, get_at}
use my_iperf.StatsJson.RoundTrip.{get_at-some}
use my_iperf.RunResult.{Snapshot, TestRunResult, build_current_result, combine_reasons}
use my_iperf.RunResult.RunJson.{run_to_json}
use my_iperf.Runner.{TestConfig, TestResult}
use my_iperf.Runner.Messages.{LongLib}
use my_iperf.Runner.Plain.{get_optional-some}
use my_iperf.Runner.ResultFile.{
  result_file_path, fill_from_phases, fill_verdict, fill_result, blank_result, read_result,
  run_id_mismatch, caught, read_file, parse_result_file,
}
use my_iperf.Runner.ResultFile.Filled.{IsWritable, received, fill_from_phases-received}

module _ {f : Floats} {lib : JsonLib} {texts : TextLib f lib} (longs : LongLib texts)
    (join : Text → Text → Text) (open_file : Text → Option Text) where
  open lib use {
    Json, member, with_member, of_text, of_bool, get_text, get_bool, member-with_member,
    get_text-of_text, get_bool-of_bool,
  }
  open texts use {of_count, of_real, get_real, parse, IsFinite, get_real-of_real}
  open longs use {get_long, get_long-of_count}

  -- What the file says of a failure to write it.
  abbrev pub export_warning : Text → Text
  export_warning warning =
      if is_empty warning then [] else text "Result export warning: " ++ warning

  verdict_reason :
      (reason warning : Text)
      → (if is_empty warning
          then reason
          else (if is_empty reason then reason else reason ++ text "; ")
            ++ (text "Result export warning: " ++ warning))
        ≡ combine_reasons reason (export_warning warning)
  unfolding combine_reasons
  verdict_reason [] [] = refl
  verdict_reason [] (c ∷ warning) = refl
  verdict_reason (d ∷ reason) [] = refl
  verdict_reason (d ∷ reason) (c ∷ warning) = refl

  abbrev pub judged : TestRunResult f.Real → TestResult f.Real → TestResult f.Real
  judged run r = record r {
    success = run.success;
    failure_reason = combine_reasons run.failure_reason (export_warning run.result_export_warning);
  }

  fill_verdict-judged :
      (run : TestRunResult f.Real) (r : TestResult f.Real)
      → fill_verdict longs join open_file (run_to_json texts run) r ≡ ok (judged run r)
  unfolding fill_verdict run_to_json
  fill_verdict-judged run r =
      let j = run_to_json texts run in
      rw (
        get_optional-some longs "success" get_bool _ j _ _ (simp member-with_member)
            (get_bool-of_bool run.success),
        get_optional-some longs "failureReason" get_text _ j _ _ (simp member-with_member)
            (get_text-of_text run.failure_reason),
        get_optional-some longs "resultExportWarning" get_text _ j _ _ (simp member-with_member)
            (get_text-of_text run.result_export_warning),
        verdict_reason run.failure_reason run.result_export_warning,
      )

  -- What the process of that role received.
  abbrev pub measured : Text → Snapshot f.Real → TestStats f.Real
  measured role c =
      if text_eq role (text "Client") then c.client_stats_phase2 else c.server_stats_phase1

  module _ (c : Snapshot f.Real) (now reason : Text) where
    abbrev pub run : TestRunResult f.Real
    run = build_current_result now reason c

    fill_chosen :
        (client : Bool) (blank : TestResult f.Real)
        → IsWritable longs join open_file
            (if client then c.client_stats_phase2 else c.server_stats_phase1)
        → ((if client
              then fill_from_phases longs join open_file "phase2" "phase1"
                  (text "CLIENT")
                  (run_to_json texts run)
                  blank
              else fill_from_phases longs join open_file "phase1" "phase2"
                  (text "SERVER")
                  (run_to_json texts run)
                  blank)
            >>= fill_verdict longs join open_file (run_to_json texts run))
          ≡ ok (
              judged run (
                received longs join open_file
                  (if client then c.client_stats_phase2 else c.server_stats_phase1)
                  blank))
    unfolding run_to_json build_current_result
    fill_chosen true blank h =
        let root = run_to_json texts run in
        ap (λ x. x >>= fill_verdict longs join open_file root)
          (fill_from_phases-received longs join open_file "phase2" "phase1" root run.phase2 blank
            (simp member-with_member) h)
        ∙ fill_verdict-judged run (received longs join open_file c.client_stats_phase2 blank)
    fill_chosen false blank h =
        let root = run_to_json texts run in
        ap (λ x. x >>= fill_verdict longs join open_file root)
          (fill_from_phases-received longs join open_file "phase1" "phase2" root run.phase1 blank
            (simp member-with_member) h)
        ∙ fill_verdict-judged run (received longs join open_file c.server_stats_phase1 blank)

    fill_result-run :
        (role : Text) (blank : TestResult f.Real)
        → IsWritable longs join open_file (measured role c)
        → fill_result longs join open_file role (run_to_json texts run) blank
          ≡ ok (judged run (received longs join open_file (measured role c) blank))
    unfolding fill_result
    fill_result-run role blank h = fill_chosen (text_eq role (text "Client")) blank h

    run_id_read : get_at texts "runId" get_text (run_to_json texts run) ≡ ok c.run_id
    unfolding run_to_json build_current_result
    run_id_read =
        get_at-some texts "runId" get_text (run_to_json texts run) (of_text c.run_id) c.run_id
          (simp member-with_member) (get_text-of_text c.run_id)

    read_result-run :
        (config : TestConfig) (role : Text)
        → c.run_id ≡ config.run_id
        → IsWritable longs join open_file (measured role c)
        → read_result longs join open_file config role (run_to_json texts run)
          ≡ ok (
              ok (
                judged run (
                  received longs join open_file
                    (measured role c)
                    (blank_result longs join open_file config role))))
    unfolding read_result
    read_result-run config role same h =
        let blank = blank_result longs join open_file config role in
        let filled =
          fill_result longs join open_file role (run_to_json texts run) blank >>= λ result.
          ok (ok result) in
        let choose = λ (found : Text) (b : Bool).
          if b then filled else ok (throw (run_id_mismatch found config.run_id)) in
        ap (λ x. x >>= λ found. choose found (text_eq found config.run_id)) run_id_read
        ∙ (ap (choose c.run_id)
              (ap (λ t. text_eq t config.run_id) same ∙ text_eq_refl config.run_id)
            ∙ ap (λ x. x >>= λ result. ok (ok result)) (fill_result-run role blank h))

    -- A file that the run's result was written to, as the controller builds it, and that has the name and
    -- the run id of the test, gives the test runner what the process of that role received, the run's
    -- verdict, and the run's reason with the warning of the export; the counters must fit
    -- `long long` and the durations must be finite.
    pub parse_result_file-build :
        (config : TestConfig) (role file : Text)
        → is_empty config.run_id ≡ false
        → c.run_id ≡ config.run_id
        → IsWritable longs join open_file (measured role c)
        → open_file (result_file_path longs join open_file config role) ≡ some file
        → parse file ≡ ok (run_to_json texts run)
        → parse_result_file longs join open_file config role
          ≡ ok (
              judged run (
                received longs join open_file
                  (measured role c)
                  (blank_result longs join open_file config role)))
    unfolding parse_result_file read_file caught
    parse_result_file-build config role file n same h opened parsed =
        let path = result_file_path longs join open_file config role in
        let catch = caught longs join open_file path in
        ap
          (λ b.
            if b
            then throw (text "runId is empty; cannot locate MyIperf result JSON")
            else read_file longs join open_file config role path (open_file path))
          n
        ∙ (ap (read_file longs join open_file config role path) opened
            ∙ (ap (λ x. catch (x >>= read_result longs join open_file config role)) parsed
                ∙ ap catch (read_result-run config role same h)))

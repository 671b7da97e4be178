-- ===== src/CommandLine/Paths.antt =====
-- The command lines that the test runner builds name no configuration file: TestRunner/ProcessManager.cpp
-- and the first pass of MyIperf/app/ipeftc/CLIHandler.cpp, `parseArgs`.
use my_iperf.Prelude.{
  ◌≡◌, ◌≢◌, refl, Text, text, [], not, is_empty, text_eq, text_eq→≡, All, All-append, Bool-cases,
  inl, inr, if◌then◌else◌,
}
use my_iperf.Prelude.Int.{ℤ, to_string_ℤ}
use my_iperf.Result.{Result}
use my_iperf.Runner.{TestConfig}
use my_iperf.CommandLine.{config_path}
use my_iperf.CommandLine.Arguments.{option_if, is_positive, build_server_args, build_client_args}
use my_iperf.CommandLine.Understood.{
  NotConfig, config_path_none, option_if-NotConfig, number-NotConfig, truth-NotConfig, IsLaunchable,
}

module _ {stoi : Text → Result ℤ} (c : TestConfig) (h : IsLaunchable stoi c) where
  not_config : (t : Text) → t ≢ text "--config" → NotConfig t
  not_config t h = elim (Bool-cases (text_eq t (text "--config"))) [
    | inl e ↦ absurd (h (text_eq→≡ t (text "--config") e))
    | inr e ↦ e
  ]

  number_other :
      (name : Text) (n : ℤ)
      → NotConfig name
      → All NotConfig (option_if (is_positive n) name (to_string_ℤ n))
  number_other name n h = option_if-NotConfig (is_positive n) name _ h (number-NotConfig n)

  text_other :
      (name t : Text)
      → NotConfig name
      → t ≢ text "--config"
      → All NotConfig (option_if (not (is_empty t)) name t)
  text_other name t h k = option_if-NotConfig (not (is_empty t)) name t h (λ e. not_config t k)

  bind_other : NotConfig (if is_empty c.server_bind_ip then text "0.0.0.0" else c.server_bind_ip)
  bind_other = elim (Bool-cases (is_empty c.server_bind_ip)) [
    | inl e ↦ rw e refl
    | inr e ↦ rw e (not_config c.server_bind_ip h.bind_ip_other)
  ]

  pub client_path : config_path (build_client_args c) ≡ []
  unfolding build_client_args
  client_path =
      let both = All-append NotConfig in
      config_path_none _ (
        refl,
        (
          refl,
          both _ _ (text_other (text "--target") c.target_ip refl h.target_ip_other) (
              both _ _ (number_other (text "--port") c.port refl) (
                both _ _ (number_other (text "--packet-size") c.packet_size refl) (
                  both _ _ (number_other (text "--num-packets") c.num_packets refl) (
                    refl,
                    (
                      truth-NotConfig c.save_logs,
                      both _ _ (number_other (text "--interval-ms") c.send_interval_ms refl) (
                          both _ _ (text_other (text "--run-id") c.run_id refl h.run_id_other) (
                            text_other (text "--result-dir") c.result_dir refl h.result_dir_other)),
                    ),
                  )))),
        ),
      )

  pub server_path : config_path (build_server_args c) ≡ []
  unfolding build_server_args
  server_path =
      let both = All-append NotConfig in
      config_path_none _ (
        refl,
        (
          refl,
          (
            refl,
            (
              bind_other,
              both _ _ (number_other (text "--port") c.port refl) (
                refl,
                (
                  truth-NotConfig c.save_logs,
                  both _ _ (text_other (text "--run-id") c.run_id refl h.run_id_other)
                      (text_other (text "--result-dir") c.result_dir refl h.result_dir_other),
                ),
              ),
            ),
          ),
        ),
      )

-- ===== src/CommandLine/Arguments.antt =====
-- TestRunner/ProcessManager.cpp, `BuildServerArgs`, `BuildClientArgs` and the command line of Windows.
use my_iperf.Prelude.{
  Text, text, Bool, true, false, List, [], ◌∷◌, ◌++◌, not, is_empty, ◌==◌, ◌||◌, if◌then◌else◌,
}
use my_iperf.Prelude.Int.{ℤ, pos, ltb_ℤ, to_string_ℤ}
use my_iperf.Runner.{TestConfig}

abbrev pub option : Text → Text → List Text
option name value = name ∷ value ∷ []

-- `if (test) { args.push_back(name); args.push_back(value); }`
unfoldable pub option_if : Bool → Text → Text → List Text
option_if true name value = option name value
option_if false name value = []

abbrev pub truth_text : Bool → Text
truth_text true = text "true"
truth_text false = text "false"

abbrev pub is_positive : ℤ → Bool
is_positive n = ltb_ℤ (pos 0) n

unfoldable pub build_server_args : TestConfig → List Text
unfolding option_if to_string_ℤ
build_server_args c =
    option (text "--mode") (text "server")
    ++ (option (text "--target")
          (if is_empty c.server_bind_ip then text "0.0.0.0" else c.server_bind_ip)
        ++ (option_if (is_positive c.port) (text "--port") (to_string_ℤ c.port)
            ++ (option (text "--save-logs") (truth_text c.save_logs)
                ++ (option_if (not (is_empty c.run_id)) (text "--run-id") c.run_id
                    ++ option_if (not (is_empty c.result_dir)) (text "--result-dir")
                        c.result_dir))))

unfoldable pub build_client_args : TestConfig → List Text
unfolding option_if to_string_ℤ
build_client_args c =
    option (text "--mode") (text "client")
    ++ (option_if (not (is_empty c.target_ip)) (text "--target") c.target_ip
        ++ (option_if (is_positive c.port) (text "--port") (to_string_ℤ c.port)
            ++ (option_if (is_positive c.packet_size) (text "--packet-size")
                  (to_string_ℤ c.packet_size)
                ++ (option_if (is_positive c.num_packets) (text "--num-packets")
                      (to_string_ℤ c.num_packets)
                    ++ (option (text "--save-logs") (truth_text c.save_logs)
                        ++ (option_if (is_positive c.send_interval_ms) (text "--interval-ms")
                              (to_string_ℤ c.send_interval_ms)
                            ++ (option_if (not (is_empty c.run_id)) (text "--run-id") c.run_id
                                ++ option_if (not (is_empty c.result_dir)) (text "--result-dir")
                                    c.result_dir)))))))

-- `arg.find_first_of(" \t\"") != std::string::npos`
unfoldable pub needs_quotes : Text → Bool
needs_quotes [] = false
needs_quotes (c ∷ s) = (c == 32 || c == 9 || c == 34) || needs_quotes s

unfoldable pub escape_quotes : Text → Text
escape_quotes [] = []
escape_quotes (c ∷ s) = let rest = escape_quotes s in if c == 34 then 92 ∷ 34 ∷ rest else c ∷ rest

unfoldable pub quote_argument : Text → Text
unfolding needs_quotes escape_quotes
quote_argument arg =
    if is_empty arg
    then text "\"\""
    else if needs_quotes arg
    then 34 ∷ (escape_quotes arg ++ 34 ∷ [])
    else arg

unfoldable pub quoted_args : List Text → Text
unfolding quote_argument
quoted_args [] = []
quoted_args (arg ∷ args) = 32 ∷ (quote_argument arg ++ quoted_args args)

unfoldable pub build_command_line : Text → List Text → Text
unfolding quote_argument quoted_args
build_command_line exe args = quote_argument exe ++ quoted_args args

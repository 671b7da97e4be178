-- ===== src/Examples/Launches.antt =====
-- A test that the test runner launches, and what IPEFTC reads from its command line.
use my_iperf.Prelude.{◌≡◌, refl, Text, text, text_eq, true, none, if◌then◌else◌, arith, ap}
use my_iperf.Prelude.Int.{ℤ, pos, to_string_ℤ}
use my_iperf.Prelude.{to_string}
use my_iperf.Result.{Result, ok, throw}
use my_iperf.Runner.{default_test_config}
use my_iperf.CommandLine.{parse_args}
use my_iperf.CommandLine.Arguments.{
  build_client_args, build_server_args, quote_argument, needs_quotes, escape_quotes,
}
use my_iperf.CommandLine.Understood.{IsLaunchable}
use my_iperf.CommandLine.Launch.{client_settings, server_settings, parse_args-build}

-- `std::stoi` on the numbers of the example.
abbrev stoi : Text → Result ℤ
stoi t =
    if text_eq t (text "5201")
    then ok (pos 5201)
    else if text_eq t (text "8192")
    then ok (pos 8192)
    else if text_eq t (text "10000")
    then ok (pos 10000)
    else if text_eq t (text "0")
    then ok (pos 0)
    else throw (text "stoi")

default-IsLaunchable : IsLaunchable stoi default_test_config
unfolding default_test_config to_string_ℤ to_string
default-IsLaunchable = record {
  port_read = refl;
  packet_size_read = refl;
  num_packets_read = refl;
  interval_read = refl;
  port_to = omega arith;
  target_ip_other = λ e. absurd (differ e);
  bind_ip_other = λ e. absurd (differ e);
  run_id_other = λ e. cc;
  result_dir_other = λ e. absurd (differ' e);
}
  where
    differ : text "0.0.0.0" ≡ text "--config" → ⊥
    differ e = let f = ap (λ t. text_eq t (text "0.0.0.0")) e in cc

    differ' : text "Results" ≡ text "--config" → ⊥
    differ' e = let f = ap (λ t. text_eq t (text "Results")) e in cc

parse_args-build_example :
    (parse_args stoi (λ path. none) true (build_client_args default_test_config)
      ≡ ok (client_settings true default_test_config))
    × (parse_args stoi (λ path. none) true (build_server_args default_test_config)
        ≡ ok (server_settings true default_test_config))
parse_args-build_example =
    parse_args-build stoi true default_test_config default-IsLaunchable (λ path. none)

quote_sample : quote_argument (text "a \"b") ≡ text "\"a \\\"b\""
unfolding quote_argument needs_quotes escape_quotes
quote_sample = refl

-- ===== src/CommandLine/Understood.antt =====
-- MyIperf/app/ipeftc/CLIHandler.cpp, `parseArgs`: how single options are read.
use my_iperf.Prelude.{
  ℕ, ◌≤◌, ◌≡◌, ◌≢◌, refl, sym, subst, ap, ◌∙◌, Text, text, Bool, true, false, List, [], ◌∷◌, ◌++◌,
  text_eq, All, if◌then◌else◌, arith, to_string-front,
}
use my_iperf.Prelude.Int.{ℤ, pos, negsuc, ◌≤ℤ◌, to_string_ℤ}
use my_iperf.Result.{Result, ok, ◌>>=◌}
use my_iperf.Config.{Config, set_save_logs}
use my_iperf.Runner.{TestConfig}
use my_iperf.CommandLine.{
  Parsing, set_config, config_path, is_one_of, value_options, choose_truth, plain_argument,
  set_number, set_checked, set_option, parse_options,
}
use my_iperf.CommandLine.Arguments.{option, option_if, truth_text, is_positive}

abbrev pub NotConfig : Text → Type 0
NotConfig arg = text_eq arg (text "--config") ≡ false

pub config_path_none : (args : List Text) → All NotConfig args → config_path args ≡ []
unfolding config_path
config_path_none [] h = refl
config_path_none (arg ∷ []) h = refl
config_path_none (arg ∷ value ∷ rest) h =
    ap (λ b. if b then value else config_path (value ∷ rest)) h.0
    ∙ config_path_none (value ∷ rest) h.1

pub option_if-NotConfig :
    (b : Bool) (name value : Text)
    → NotConfig name
    → (b ≡ true → NotConfig value)
    → All NotConfig (option_if b name value)
unfolding option_if
option_if-NotConfig true name value h k = (h, (k refl, tt))
option_if-NotConfig false name value h k = tt

digit-NotConfig : (d : ℕ) (s : Text) → 48 ≤ d → NotConfig (d ∷ s)
digit-NotConfig d s h = ground arith

pub number-NotConfig : (n : ℤ) → is_positive n ≡ true → NotConfig (to_string_ℤ n)
unfolding to_string_ℤ
number-NotConfig (pos n) h =
    let (d, s, e, big) = to_string-front n in subst NotConfig (sym e) (digit-NotConfig d s big)
number-NotConfig (negsuc n) h = absurd (ground arith)

pub truth-NotConfig : (b : Bool) → NotConfig (truth_text b)
truth-NotConfig true = refl
truth-NotConfig false = refl

module _ (stoi : Text → Result ℤ) where
  -- `stoi` reads what `to_string` printed.
  abbrev pub Reads : ℤ → Type 0
  Reads n = stoi (to_string_ℤ n) ≡ ok n

  -- An option whose value is accepted.
  pub option_read :
      (name value : Text) (rest : List Text) (p p' : Parsing)
      → is_one_of name value_options ≡ true
      → set_option stoi name value p ≡ ok p'
      → parse_options stoi (option name value ++ rest) p ≡ parse_options stoi rest p'
  unfolding parse_options
  option_read name value rest p p' k e =
      ap (λ b. chosen b) k ∙ ap (λ r. r >>= parse_options stoi rest) e
    where
      chosen : Bool → Result Parsing
      chosen b = elim b [
        | true ↦ set_option stoi name value p >>= parse_options stoi rest
        | false ↦ plain_argument name p >>= parse_options stoi (value ∷ rest)
      ]

  -- An option that is given or not; `q` says what it leaves.
  pub option_if_read :
      (b : Bool) (name value : Text) (rest : List Text) (q : Bool → Parsing)
      → is_one_of name value_options ≡ true
      → (b ≡ true → set_option stoi name value (q false) ≡ ok (q true))
      → parse_options stoi (option_if b name value ++ rest) (q false)
        ≡ parse_options stoi rest (q b)
  unfolding option_if
  option_if_read true name value rest q k e =
      option_read name value rest (q false) (q true) k (e refl)
  option_if_read false name value rest q k e = refl

  pub number_set :
      (set : ℤ → Config → Result Config) (value : Text) (n : ℤ) (p : Parsing) (c : Config)
      → stoi value ≡ ok n
      → set n p.config ≡ ok c
      → set_number stoi set value p ≡ ok (set_config c p)
  unfolding set_number
  number_set set value n p c e f = rw e (rw f)

  pub truth_set :
      (b : Bool) (p : Parsing)
      → set_option stoi (text "--save-logs") (truth_text b) p
        ≡ ok (set_config (record p.config { save_logs = b }) p)
  unfolding set_option set_checked set_save_logs choose_truth
  truth_set true p = refl
  truth_set false p = refl

  -- The numbers of a configuration are read back, its port is a port, and none of its texts looks like
  -- the option of a configuration file.
  pub record IsLaunchable (c : TestConfig) : Type 0 where
    pub port_read : Reads c.port
    pub packet_size_read : Reads c.packet_size
    pub num_packets_read : Reads c.num_packets
    pub interval_read : Reads c.send_interval_ms
    pub port_to : c.port ≤ℤ pos 65535
    pub target_ip_other : c.target_ip ≢ text "--config"
    pub bind_ip_other : c.server_bind_ip ≢ text "--config"
    pub run_id_other : c.run_id ≢ text "--config"
    pub result_dir_other : c.result_dir ≢ text "--config"

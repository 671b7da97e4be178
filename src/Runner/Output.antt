-- ===== src/Runner/Output.antt =====
-- TestRunner/IpeftcOutputParser.cpp: the statistics in what a process printed. `match_integer` and
-- `match_decimal` are the searches for the two regular expressions behind a label: the first group of
-- the first match. `stoll`, `stod` and the arithmetic on `double` are the standard library's.
pub mod Positions
pub mod Slices
use Prim.Native.Nat.{min}
use my_iperf.Prelude.{
  ℕ, ◌+◌, ◌-◌, ◌≡◌, Text, text, text_eq, Bool, true, false, Option, none, some, List, [], ◌∷◌, ◌++◌,
  length, take, drop, is_empty, ◌&&◌, ◌||◌, if◌then◌else◌,
}
use my_iperf.Prelude.Int.{ℤ, pos, ltb_ℤ}
use my_iperf.Result.{Result, ok, throw, ◌>>=◌}
use my_iperf.Stats.{Floats}
use my_iperf.Runner.{TestResult, default_test_result}
use my_iperf.Runner.Processes.{starts_with}

-- `p + n` of a position that there may be.
unfoldable pub shift : ℕ → Option ℕ → Option ℕ
shift n none = none
shift n (some p) = some (n + p)

-- `text.find(marker)`.
unfoldable pub find : Text → Text → Option ℕ
unfolding shift starts_with
find marker [] = if starts_with marker [] then some 0 else none
find marker (c ∷ t) =
    let rest = find marker t in if starts_with marker (c ∷ t) then some 0 else shift 1 rest

-- The position that `find` gave behind `start`, or the end where there is none.
abbrev pub position : Option ℕ → ℕ → ℕ → ℕ
position none start size = size
position (some p) start size = start + p

unfoldable pub find_next_marker : Text → ℕ → Text → ℕ
unfolding find
find_next_marker t start marker = position (find marker (drop start t)) start (length t)

unfoldable pub slice_phase : Text → Text → Text
unfolding find_next_marker
slice_phase output phase = elim (find phase output) [
  | none ↦ []
  | some begin ↦
      take (find_next_marker output (begin + length phase) (text "Test Phase ") - begin)
        (drop begin output)
]

unfoldable pub block_end : Text → ℕ → ℕ
unfolding find_next_marker
block_end phase_text search_from =
    min
      (min (min (length phase_text) (find_next_marker phase_text search_from (text "Client-side")))
        (find_next_marker phase_text search_from (text "Server-side")))
      (find_next_marker phase_text search_from (text "----------------------------"))

unfoldable pub slice_label_block : Text → Text → Text
unfolding block_end find
slice_label_block phase_text label = elim (find label phase_text) [
  | none ↦ []
  | some begin ↦ take (block_end phase_text (begin + length label) - begin) (drop begin phase_text)
]

-- What is there, or else the other value.
unfoldable pub value_or : {A : Type 0} → Option A → A → A
value_or none a = a
value_or (some x) a = x

unfoldable pub is_some : {A : Type 0} → Option A → Bool
is_some none = false
is_some (some x) = true

-- What the parser uses of the standard library.
pub record Reading (f : Floats) : Type 0 where
  pub match_integer : Text → Text → Option Text
  pub match_decimal : Text → Text → Option Text
  pub stoll : Text → Result ℤ
  pub stod : Text → Result f.Real
  pub is_zero : f.Real → Bool
  -- `(bytes * 8.0) / (duration * 1000000.0)`
  pub megabits : ℤ → f.Real → f.Real

module _ {f : Floats} (reading : Reading f) where
  open reading use {match_integer, match_decimal, stoll, stod}

  unfoldable pub extract_double : Text → Text → Result (Option f.Real)
  extract_double t label = elim (match_decimal label t) [
    | none ↦ ok none
    | some digits ↦ stod digits >>= λ x. ok (some x)
  ]

  unfoldable pub extract_long_long : Text → Text → Result (Option ℤ)
  extract_long_long t label = elim (match_integer label t) [
    | none ↦ ok none
    | some digits ↦ stoll digits >>= λ n. ok (some n)
  ]

  -- The reading of a block that is not empty.
  unfoldable pub fill_stats : Text → Bool → TestResult f.Real → Result (Bool × TestResult f.Real)
  unfolding extract_double extract_long_long value_or is_some
  fill_stats block prefer_sent result = do
    bytes_received ← extract_long_long block (text "Total Bytes Received")
    bytes_sent ← extract_long_long block (text "Total Bytes Sent")
    packets_received ← extract_long_long block (text "Total Packets Received")
    packets_sent ← extract_long_long block (text "Total Packets Sent")
    duration ← extract_double block (text "Duration")
    throughput ← extract_double block (text "Throughput")
    sequence ← extract_long_long block (text "Sequence Errors")
    checksums ← extract_long_long block (text "Failed Checksums")
    contents ← extract_long_long block (text "Content Mismatches")
    ok (
      (is_some bytes_received || is_some bytes_sent)
          && (is_some packets_received || is_some packets_sent),
      record result {
        total_bytes =
            if prefer_sent
            then value_or bytes_sent (value_or bytes_received (pos 0))
            else value_or bytes_received (value_or bytes_sent (pos 0));
        total_packets =
            if prefer_sent
            then value_or packets_sent (value_or packets_received (pos 0))
            else value_or packets_received (value_or packets_sent (pos 0));
        duration = value_or duration result.duration;
        throughput = value_or throughput result.throughput;
        sequence_errors = value_or sequence result.sequence_errors;
        checksum_errors = value_or checksums result.checksum_errors;
        content_mismatches = value_or contents result.content_mismatches;
      },
    )

  unfoldable pub fill_stats_from_block :
      Text → Bool → TestResult f.Real → Result (Bool × TestResult f.Real)
  unfolding fill_stats
  fill_stats_from_block block prefer_sent result =
      if is_empty block then ok (false, result) else fill_stats block prefer_sent result

  unfoldable pub try_parse_preferred_block :
      Text → Text → Text → Bool → TestResult f.Real → Result (Bool × TestResult f.Real)
  unfolding slice_phase slice_label_block fill_stats_from_block
  try_parse_preferred_block output phase_title label prefer_sent result =
      fill_stats_from_block (slice_label_block (slice_phase output phase_title) label) prefer_sent
        result

  -- What was received in the phase `own`, or else what was sent in the phase `other`.
  unfoldable pub try_phases :
      Text → Text → Text → Text → TestResult f.Real → Result (Bool × TestResult f.Real)
  unfolding try_parse_preferred_block
  try_phases output own other label result =
      try_parse_preferred_block output own label false result >>= λ tried.
      if tried.0 then ok tried else try_parse_preferred_block output other label true tried.1

  unfoldable pub with_throughput : TestResult f.Real → TestResult f.Real
  with_throughput r =
      if reading.is_zero r.throughput && (f.is_positive r.duration && ltb_ℤ (pos 0) r.total_bytes)
      then record r { throughput = reading.megabits r.total_bytes r.duration }
      else r

  unfoldable pub judge_packets : TestResult f.Real → TestResult f.Real
  judge_packets r =
      if ltb_ℤ (pos 0) r.total_packets
      then record r { success = true }
      else record r { success = false; failure_reason = text "Parsed result contains zero packets" }

  unfoldable pub conclude : Text → Bool × TestResult f.Real → TestResult f.Real
  unfolding with_throughput judge_packets
  conclude role (false, r) = record r {
    success = false;
    failure_reason = text "Could not parse MyIperf phase summary for role " ++ role;
  }
  conclude role (true, r) = judge_packets (with_throughput r)

  -- `IpeftcOutputParser::Parse`.
  unfoldable pub parse : Text → Text → ℤ → Result (TestResult f.Real)
  unfolding try_phases conclude
  parse output role port =
      let blank = record (default_test_result f.zero_real) { role = role; port = port } in
      let phase1 = text "Test Phase 1 Summary" in
      let phase2 = text "Test Phase 2 Summary" in
      (if text_eq role (text "Client")
        then try_phases output phase2 phase1 (text "Client-side") blank
        else try_phases output phase1 phase2 (text "Server-side") blank)
      >>= λ tried. ok (conclude role tried)

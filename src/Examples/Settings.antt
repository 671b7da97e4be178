-- ===== src/Examples/Settings.antt =====
-- Configurations, over a small model of JSON values.
use package.text.Mathlib.Text.{◌==◌ as str_eq}
use my_iperf.Prelude.{String, Text, text, Bool, Option, none, some, ◌≡◌, refl, arith, if◌then◌else◌}
use my_iperf.Prelude.Int.{ℤ, pos}
use my_iperf.Result.{Result, ok, throw}
use my_iperf.Json.{JsonLib}
use my_iperf.Config.{from_json, to_json, set_member, set_port}
use my_iperf.Config.Accepted.{IsAccepted, from_json-IsAccepted}
use my_iperf.Config.RoundTrip.{IsIntConfig, from_json-to_json}
use my_iperf.Examples.Inputs.{small_run}

data Value : Type 0 where
  int : ℤ → Value
  str : Text → Value
  flag : Bool → Value
  empty : Value
  extended : String → Value → Value → Value

abbrev member : String → Value → Option Value
member k (extended j v root) = let rest = member k root in if str_eq j k then some v else rest
member k v = none

abbrev to_int : Value → Result ℤ
to_int (int n) = ok n
to_int v = throw (text "type must be number")

abbrev to_text : Value → Result Text
to_text (str t) = ok t
to_text v = throw (text "type must be string")

abbrev to_bool : Value → Result Bool
to_bool (flag b) = ok b
to_bool v = throw (text "type must be boolean")

abbrev values : JsonLib
values = record {
  Json = Value;
  object = empty;
  member = member;
  with_member = extended;
  of_int = int;
  of_text = str;
  of_bool = flag;
  get_int = to_int;
  get_text = to_text;
  get_bool = to_bool;
  member-object = λ k. refl;
  member-with_member = λ k j v root. refl;
  get_int-of_int = λ n h. refl;
  get_text-of_text = λ t. refl;
  get_bool-of_bool = λ b. refl;
}

small_run-IsAccepted : IsAccepted small_run
small_run-IsAccepted = ground arith

small_run-IsIntConfig : IsIntConfig small_run
small_run-IsIntConfig = ground arith

from_json-to_json_example : from_json values (to_json values small_run) ≡ ok small_run
from_json-to_json_example =
    from_json-to_json values small_run small_run-IsAccepted small_run-IsIntConfig

from_json-IsAccepted_example : IsAccepted small_run
from_json-IsAccepted_example =
    from_json-IsAccepted values (to_json values small_run) small_run from_json-to_json_example

bad_port :
    from_json values (extended "port" (int (pos 65536)) empty)
    ≡ throw (text "Error: Port number must be between 1 and 65535.")
unfolding from_json set_member set_port
bad_port = refl

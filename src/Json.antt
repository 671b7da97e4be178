-- ===== src/Json.antt =====
-- The part of nlohmann::json that the program calls (a vendored library): its values are abstract, and
-- the laws are its documented behaviour on objects and on the conversions of `int`, `std::string` and
-- `bool`. A conversion of a value of another type throws.
use Prim.Native.Nat.{◌≤◌, ◌^◌, ◌<◌}
use text.Mathlib.Text.{◌==◌}
use my_iperf.Prelude.{◌≡◌, String, Text, Bool, Option, none, some, if◌then◌else◌}
use my_iperf.Prelude.Int.{ℤ, pos_part, neg_part}
use my_iperf.Result.{Result, ok}

-- The values of a 32-bit `int`.
abbrev pub IsInt : ℤ → Type 0
IsInt n = (pos_part n < 2 ^ 31) × (neg_part n ≤ 2 ^ 31)

pub record JsonLib : Type 1 where
  pub Json : Type 0
  -- the empty object
  pub object : Json
  -- `contains(key)` and `operator[](key)` of a constant value
  pub member : String → Json → Option Json
  -- `root[key] = value`
  pub with_member : String → Json → Json → Json
  pub of_int : ℤ → Json
  pub of_text : Text → Json
  pub of_bool : Bool → Json
  -- `get<int>()`, `get<std::string>()`, `get<bool>()`
  pub get_int : Json → Result ℤ
  pub get_text : Json → Result Text
  pub get_bool : Json → Result Bool
  pub member-object : (k : String) → member k object ≡ none
  pub member-with_member :
      (k j : String) (v root : Json)
      → member k (with_member j v root) ≡ (if j == k then some v else member k root)
  pub get_int-of_int : (n : ℤ) → IsInt n → get_int (of_int n) ≡ ok n
  pub get_text-of_text : (t : Text) → get_text (of_text t) ≡ ok t
  pub get_bool-of_bool : (b : Bool) → get_bool (of_bool b) ≡ ok b

-- ===== src/Prelude/Strings.antt =====
-- C++ strings and byte buffers as lists of bytes, and `std::to_string` of a number.
use Prim.Native.Nat.{ℕ, zero, suc, ◌+◌, ◌/◌, ◌%◌, ◌≤◌, ◌<◌}
use Prim.Native.Char.{code}
use Prim.Native.String.{String}
use mathlib.Core.Path.{◌≡◌, refl}
use mathlib.Core.Bool.{Bool, true, false, ◌&&◌}
use mathlib.Core.List.{List, [], ◌∷◌}
use native.Mathlib.Omega.{arith}
use mathlib.Core.Logic.{inl, inr}
use my_iperf.Prelude.Tests.{ltb, ◌==◌, if◌then◌else◌, Bool-cases}

abbrev pub Bytes : Type 0
Bytes = List ℕ

-- `std::string`: its bytes.
abbrev pub Text : Type 0
Text = List ℕ

-- The bytes of an ASCII literal.
abbrev pub text : String → Text
text String.[] = []
text (String.◌∷◌ c s) = code c ∷ text s

abbrev pub is_empty : Text → Bool
is_empty [] = true
is_empty (c ∷ cs) = false

abbrev pub text_eq : Text → Text → Bool
text_eq [] [] = true
text_eq [] (b ∷ t) = false
text_eq (a ∷ s) [] = false
text_eq (a ∷ s) (b ∷ t) = a == b && text_eq s t

-- Decimal digits in front of `acc`; a number has at most as many digits as its value, plus one.
decimal : ℕ → ℕ → Text → Text
decimal zero n acc = acc
decimal (suc fuel) n acc =
    let rest = decimal fuel (n / 10) ((48 + n % 10) ∷ acc) in
    if ltb n 10 then (48 + n) ∷ acc else rest

-- `std::to_string` of a number that is not negative.
unfoldable pub to_string : ℕ → Text
unfolding decimal
to_string n = decimal (suc n) n []

to_string_sample : to_string 4203 ≡ text "4203"
unfolding to_string
to_string_sample = refl

decimal-front :
    (fuel n : ℕ) (acc : Text)
    → n < fuel
    → (d : ℕ) × (s : Text) × (decimal fuel n acc ≡ d ∷ s) × (48 ≤ d)
unfolding decimal
decimal-front zero n acc h = absurd (omega arith)
decimal-front (suc fuel) n acc h = elim (Bool-cases (ltb n 10)) [
  | inl e ↦ (48 + n, acc, rw e, omega arith)
  | inr e ↦
      let (d, s, f, g) = decimal-front fuel (n / 10) ((48 + n % 10) ∷ acc) (ground arith) in
      (d, s, rw e f, g)
]

-- A printed number starts with a digit.
pub to_string-front : (n : ℕ) → (d : ℕ) × (s : Text) × (to_string n ≡ d ∷ s) × (48 ≤ d)
unfolding to_string
to_string-front n = decimal-front (suc n) n [] (omega arith)

pub text_eq→≡ : (s t : Text) → text_eq s t ≡ true → s ≡ t
text_eq→≡ [] [] h = refl
text_eq→≡ [] (b ∷ t) h = cc
text_eq→≡ (a ∷ s) [] h = cc
text_eq→≡ (a ∷ s) (b ∷ t) h = ground (arith, text_eq→≡ s t)

pub text_eq_refl : (s : Text) → text_eq s s ≡ true
text_eq_refl [] = refl
text_eq_refl (a ∷ s) = ground (arith, text_eq_refl s)

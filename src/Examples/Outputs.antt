-- ===== src/Examples/Outputs.antt =====
-- An output with one summary, of what a client received.
use my_iperf.Prelude.{
  ◌≡◌, refl, Text, text, Bool, true, false, none, some, [], ◌∷◌, ◌++◌, inr, if◌then◌else◌,
}
use my_iperf.Prelude.Int.{pos}
use my_iperf.Result.{ok}
use my_iperf.Runner.{default_test_result}
use my_iperf.Runner.Processes.{starts_with}
use my_iperf.Runner.Output.{Reading, try_parse_preferred_block, fill_stats_from_block}
use my_iperf.Runner.Output.Positions.{NoneIn}
use my_iperf.Runner.Output.Slices.{try_parse_preferred_block-fill}
use my_iperf.Examples.Inputs.{ticks}

-- Every number reads as 7.
abbrev reading : Reading ticks
reading = record {
  match_integer = λ label t. some (text "7");
  match_decimal = λ label t. none;
  stoll = λ t. ok (pos 7);
  stod = λ t. ok 7;
  is_zero = λ x. false;
  megabits = λ n x. x;
}

abbrev none_in : Text → Text → Text → Bool
none_in marker [] t = true
none_in marker (c ∷ before) t =
    let rest = none_in marker before t in
    if starts_with marker (c ∷ (before ++ t)) then false else rest

both : (b r : Bool) → (if b then false else r) ≡ true → (b ≡ false) × (r ≡ true)
both true r h = cc
both false r h = (refl, h)

none_in_lem : (marker before t : Text) → none_in marker before t ≡ true → NoneIn marker before t
none_in_lem marker [] t h = tt
none_in_lem marker (c ∷ before) t h =
    let (first, others) = both _ _ h in (first, none_in_lem marker before t others)

abbrev before : Text
before = text "bye\n"

abbrev title : Text
title = text "Test Phase 2 Summary"

abbrev head : Text
head = text "\n"

abbrev label : Text
label = text "Client-side"

abbrev body : Text
body = text ":\nTotal Bytes Received: 7\n"

abbrev tail : Text
tail = text "----------------------------\n"

abbrev rest : Text
rest = text "Test Phase 3"

try_parse_preferred_block-fill_example :
    try_parse_preferred_block reading
      (before ++ (title ++ ((head ++ (label ++ (body ++ tail))) ++ rest)))
      title
      label
      false
      (default_test_result 0)
    ≡ fill_stats_from_block reading (label ++ body) false (default_test_result 0)
unfolding starts_with
try_parse_preferred_block-fill_example =
    try_parse_preferred_block-fill reading before title head label body tail rest false
      (default_test_result 0)
      (none_in_lem title before (title ++ ((head ++ (label ++ (body ++ tail))) ++ rest)) refl)
      (none_in_lem (text "Test Phase ") (head ++ (label ++ (body ++ tail))) rest refl) (inr refl)
      (none_in_lem label (title ++ head) (label ++ (body ++ tail)) refl)
      (
        none_in_lem (text "Client-side") body tail refl,
        none_in_lem (text "Server-side") body tail refl,
        none_in_lem (text "----------------------------") body tail refl,
      )
      (inr (inr (inr refl)))

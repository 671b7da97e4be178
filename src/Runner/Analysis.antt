-- ===== src/Runner/Analysis.antt =====
-- TestRunner/Message.cpp, `AnalyzeTestResult`: which results pass.
use my_iperf.Prelude.{
  ◌≡◌, refl, sym, ap, ◌∙◌, ◌↔◌, ◌⊎◌, inl, inr, Text, text, is_empty, Bool, true, false, ◌&&◌, List,
  [], ◌∷◌, ◌++◌, All, Bool-cases, arith, if◌then◌else◌,
}
use my_iperf.Prelude.Int.{ℤ, pos, negsuc, ◌<ℤ◌, ◌≤ℤ◌, eqb_ℤ}
use my_iperf.Runner.{TestResult, run_checks, checks_of, analyze_test_result}

-- What a result has to be so that no check fails.
pub record IsClean {Real : Type 0} (r : TestResult Real) (packets bytes : ℤ) : Type 0 where
  pub no_failure : (r.success ≡ true) ⊎ (r.failure_reason ≡ [])
  pub packets_expected : pos 0 <ℤ packets → r.total_packets ≡ packets
  pub bytes_expected : pos 0 <ℤ bytes → r.total_bytes ≡ bytes
  pub packets_received : pos 0 <ℤ r.total_packets
  pub no_sequence_errors : r.sequence_errors ≤ℤ pos 0
  pub no_checksum_errors : r.checksum_errors ≤ℤ pos 0
  pub no_mismatches : r.content_mismatches ≤ℤ pos 0

abbrev Passes : Bool × Text → Type 0
Passes (failing, what) = failing ≡ false

abbrev Speaks : Bool × Text → Type 0
Speaks (failing, what) = is_empty what ≡ false

run_checks_failed :
    (checks : List (Bool × Text)) (reason : Text) → (run_checks checks false reason).0 ≡ false
unfolding run_checks
run_checks_failed [] reason = refl
run_checks_failed ((true, what) ∷ checks) reason = run_checks_failed checks (reason ++ what)
run_checks_failed ((false, what) ∷ checks) reason = run_checks_failed checks reason

run_checks-Passes :
    (checks : List (Bool × Text)) (reason : Text)
    → (run_checks checks true reason).0 ≡ true
    → All Passes checks
unfolding run_checks
run_checks-Passes [] reason h = tt
run_checks-Passes ((true, what) ∷ checks) reason h =
    let e = run_checks_failed checks (reason ++ what) in cc
run_checks-Passes ((false, what) ∷ checks) reason h = (refl, run_checks-Passes checks reason h)

run_checks_passed :
    (checks : List (Bool × Text)) (passed : Bool) (reason : Text)
    → All Passes checks
    → run_checks checks passed reason ≡ (passed, reason)
unfolding run_checks
run_checks_passed [] passed reason h = refl
run_checks_passed ((true, what) ∷ checks) passed reason h = cc
run_checks_passed ((false, what) ∷ checks) passed reason h =
    run_checks_passed checks passed reason h.1

is_empty-append : (s t : Text) → is_empty t ≡ false → is_empty (s ++ t) ≡ false
is_empty-append [] t h = h
is_empty-append (c ∷ s) t h = refl

is_empty-append_left : (s t : Text) → is_empty s ≡ false → is_empty (s ++ t) ≡ false
is_empty-append_left [] t h = cc
is_empty-append_left (c ∷ s) t h = refl

run_checks_spoken :
    (checks : List (Bool × Text)) (passed : Bool) (reason : Text)
    → is_empty reason ≡ false
    → is_empty (run_checks checks passed reason).1 ≡ false
unfolding run_checks
run_checks_spoken [] passed reason h = h
run_checks_spoken ((true, what) ∷ checks) passed reason h =
    run_checks_spoken checks false (reason ++ what) (is_empty-append_left reason what h)
run_checks_spoken ((false, what) ∷ checks) passed reason h =
    run_checks_spoken checks passed reason h

-- A run of checks that fails says why.
run_checks_reason :
    (checks : List (Bool × Text)) (reason : Text)
    → All Speaks checks
    → (run_checks checks true reason).0 ≡ false
    → is_empty (run_checks checks true reason).1 ≡ false
unfolding run_checks
run_checks_reason [] reason s h = cc
run_checks_reason ((true, what) ∷ checks) reason s h =
    run_checks_spoken checks false (reason ++ what) (is_empty-append reason what s.0)
run_checks_reason ((false, what) ∷ checks) reason s h = run_checks_reason checks reason s.1 h

eqb_ℤ→≡ : (a b : ℤ) → eqb_ℤ a b ≡ true → a ≡ b
eqb_ℤ→≡ (pos a) (pos b) h = ground arith
eqb_ℤ→≡ (pos a) (negsuc b) h = ground arith
eqb_ℤ→≡ (negsuc a) (pos b) h = ground arith
eqb_ℤ→≡ (negsuc a) (negsuc b) h = ground arith

eqb_ℤ_refl : (a : ℤ) → eqb_ℤ a a ≡ true
eqb_ℤ_refl a = ground arith

is_empty→[] : (s : Text) → is_empty s ≡ true → s ≡ []
is_empty→[] [] h = refl
is_empty→[] (c ∷ s) h = cc

explained :
    (o : Bool × Text)
    → (o.0 ≡ true → o.1 ≡ [])
    → (o.0 ≡ false → is_empty o.1 ≡ false)
    → let why = if o.0 && is_empty o.1 then text "Test passed successfully" else o.1 in
      ((o.0 ≡ true) × (why ≡ text "Test passed successfully"))
      ⊎ ((o.0 ≡ false) × (is_empty why ≡ false))
explained (true, why) p f = inl (refl, rw (p refl))
explained (false, why) p f = inr (refl, f refl)

module _ {Real : Type 0} (r : TestResult Real) (packets bytes : ℤ) where
  Passes-IsClean : All Passes (checks_of r packets bytes) → IsClean r packets bytes
  unfolding checks_of
  Passes-IsClean h = record {
    no_failure = ground (arith, h.0, is_empty→[] r.failure_reason);
    packets_expected = λ p. ground (arith, h.1.0, eqb_ℤ→≡ r.total_packets packets);
    bytes_expected = λ p. ground (arith, h.1.1.0, eqb_ℤ→≡ r.total_bytes bytes);
    packets_received = ground (arith, h.1.1.1.0);
    no_sequence_errors = ground (arith, h.1.1.1.1.0);
    no_checksum_errors = ground (arith, h.1.1.1.1.1.0);
    no_mismatches = ground (arith, h.1.1.1.1.1.1.0);
  }

  IsClean-Passes : IsClean r packets bytes → All Passes (checks_of r packets bytes)
  unfolding checks_of
  IsClean-Passes c = (
    ground (arith, c.no_failure),
    (
      ground (arith, c.packets_expected, eqb_ℤ_refl packets),
      (
        ground (arith, c.bytes_expected, eqb_ℤ_refl bytes),
        (
          ground (arith, c.packets_received),
          (
            ground (arith, c.no_sequence_errors),
            (ground (arith, c.no_checksum_errors), (ground (arith, c.no_mismatches), tt)),
          ),
        ),
      ),
    ),
  )

  checks-Speaks : All Speaks (checks_of r packets bytes)
  unfolding checks_of
  checks-Speaks = (
    is_empty-append r.failure_reason (text "; ") refl,
    (refl, (refl, (refl, (refl, (refl, (refl, tt)))))),
  )

  -- The analysis marks a result as passed exactly where it is clean: it did not report a failure with a
  -- reason, it has the expected numbers of packets and bytes where these are positive, it received a
  -- packet, and it counted no error.
  pub analyze_test_result_iff :
      ((analyze_test_result r packets bytes).success ≡ true) ↔ IsClean r packets bytes
  unfolding analyze_test_result
  analyze_test_result_iff = (
    λ h. Passes-IsClean (run_checks-Passes (checks_of r packets bytes) [] h),
    λ c. ap (λ s. s.0) (run_checks_passed (checks_of r packets bytes) true [] (IsClean-Passes c)),
  )

  -- A result that passes is explained as a success, and one that fails has a reason.
  pub analyze_test_result-reason :
      let verdict = analyze_test_result r packets bytes in
      ((verdict.success ≡ true) × (verdict.failure_reason ≡ text "Test passed successfully"))
      ⊎ ((verdict.success ≡ false) × (is_empty verdict.failure_reason ≡ false))
  unfolding analyze_test_result
  analyze_test_result-reason =
      let outcome = run_checks (checks_of r packets bytes) true [] in
      explained outcome
        (λ h.
          ap (λ s. s.1)
            (run_checks_passed (checks_of r packets bytes) true []
              (run_checks-Passes (checks_of r packets bytes) [] h)))
        (run_checks_reason (checks_of r packets bytes) [] checks-Speaks)

module _ {Real : Type 0} (r : TestResult Real) (packets bytes : ℤ) where
  abbrev verdict : TestResult Real
  verdict = analyze_test_result r packets bytes

  verdict-IsClean : IsClean r packets bytes → IsClean verdict packets bytes
  unfolding analyze_test_result
  verdict-IsClean c = record {
    no_failure = inl ((analyze_test_result_iff r packets bytes).1 c);
    packets_expected = c.packets_expected;
    bytes_expected = c.bytes_expected;
    packets_received = c.packets_received;
    no_sequence_errors = c.no_sequence_errors;
    no_checksum_errors = c.no_checksum_errors;
    no_mismatches = c.no_mismatches;
  }

  still_failed :
      verdict.success ≡ false
      → is_empty verdict.failure_reason ≡ false
      → (verdict.success ≡ true) ⊎ (verdict.failure_reason ≡ [])
      → ⊥
  still_failed f e (inl t) = cc
  still_failed f e (inr t) = let k = ap is_empty t in cc

  -- Analysing a result again with the same expectations does not change the verdict.
  pub analyze_test_result-twice :
      (analyze_test_result (analyze_test_result r packets bytes) packets bytes).success
      ≡ (analyze_test_result r packets bytes).success
  analyze_test_result-twice = elim (analyze_test_result-reason r packets bytes) [
    | inl (t, why) ↦
        (analyze_test_result_iff verdict packets bytes).1
          (verdict-IsClean ((analyze_test_result_iff r packets bytes).0 t))
        ∙ sym t
    | inr (f, why) ↦ elim (Bool-cases (analyze_test_result verdict packets bytes).success) [
      | inl t ↦
          absurd
            (still_failed f why ((analyze_test_result_iff verdict packets bytes).0 t).no_failure)
      | inr f' ↦ f' ∙ sym f
    ]
  ]

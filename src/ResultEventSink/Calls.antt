-- ===== src/ResultEventSink/Calls.antt =====
-- ResultEventSink: the calls of `publish`, from their look at `running` to their push.
use my_iperf.Prelude.{
  ℕ, zero, suc, ◌+◌, ◌≡◌, refl, ap, sym, ◌∙◌, Text, text_eq, Bool-cases, inl, inr, Option, none,
  some, List, [], ◌∷◌, ◌++◌, arith, if◌then◌else◌,
}
use my_iperf.ResultEventSink.{
  ResultEventSink, Step, State, pick, publish_checks, publish_pushes, worker_takes, worker_writes,
  stop_begins, stop_ends, step, run,
}

-- The event of a push, before the later ones.
abbrev pub pushed : Option (Text × List Text) → List Text → List Text
pushed none later = later
pushed (some (event, others)) later = event ∷ later

-- The texts of the events that a run pushes.
unfoldable pub accepted_events : State → List Step → List Text
accepted_events s [] = []
accepted_events s (Step.pushes k ∷ es) =
    pushed (pick k s.0.entering) (accepted_events (step s (Step.pushes k)) es)
accepted_events s (e ∷ es) = accepted_events (step s e) es

-- The texts of the events whose calls find the sink running.
unfoldable pub checked_events : State → List Step → List Text
checked_events s [] = []
checked_events s (Step.checks event ∷ es) =
    let later = checked_events (step s (Step.checks event)) es in
    if s.0.running then event ∷ later else later
checked_events s (e ∷ es) = checked_events (step s e) es

-- How often the text is in the list.
abbrev pub copies : Text → List Text → ℕ
copies t [] = 0
copies t (x ∷ xs) = (if text_eq x t then 1 else 0) + copies t xs

copies-append : (t : Text) (xs ys : List Text) → copies t (xs ++ ys) ≡ copies t xs + copies t ys
copies-append t [] ys = omega arith
copies-append t (x ∷ xs) ys = let h = copies-append t xs ys in omega arith

-- A list, and one of it with the others.
abbrev all_of : Option (Text × List Text) → List Text → List Text
all_of none xs = xs
all_of (some (y, ys)) xs = y ∷ ys

behind : Text → Option (Text × List Text) → Option (Text × List Text)
behind x o = elim o [ none ↦ none | some (y, ys) ↦ some (y, x ∷ ys) ]

copies-behind :
    (t x : Text) (xs : List Text) (o : Option (Text × List Text))
    → copies t (all_of o xs) ≡ copies t xs
    → copies t (all_of (behind x o) (x ∷ xs)) ≡ copies t (x ∷ xs)
unfolding behind
copies-behind t x xs none h = refl
copies-behind t x xs (some (y, ys)) h = omega arith

copies-pick : (t : Text) (k : ℕ) (xs : List Text) → copies t (all_of (pick k xs) xs) ≡ copies t xs
unfolding pick behind
copies-pick t k [] = refl
copies-pick t zero (x ∷ xs) = refl
copies-pick t (suc k) (x ∷ xs) = copies-behind t x xs (pick k xs) (copies-pick t k xs)

-- What a push leaves under way.
abbrev left_of : Option (Text × List Text) → List Text → List Text
left_of none xs = xs
left_of (some (y, ys)) xs = ys

publish_pushes-left_of :
    (k : ℕ) (s : ResultEventSink)
    → (publish_pushes k s).entering ≡ left_of (pick k s.entering) s.entering
unfolding publish_pushes
publish_pushes-left_of k s = ground arith

copies-left_of :
    (t : Text) (o : Option (Text × List Text)) (xs later : List Text)
    → copies t (all_of o xs) ≡ copies t xs
    → copies t xs + copies t later ≡ copies t (left_of o xs) + copies t (pushed o later)
copies-left_of t none xs later h = refl
copies-left_of t (some (event, others)) xs later h = omega arith

-- What a check adds to the calls that are under way.
copies-checked :
    (t event : Text) (s : ResultEventSink) (later : List Text)
    → copies t s.entering + copies t (if s.running then event ∷ later else later)
      ≡ copies t (publish_checks event s).entering + copies t later
unfolding publish_checks
copies-checked t event s later = elim (Bool-cases s.running) [
  | inl e ↦ let h = copies-append t s.entering (event ∷ []) in rw (e, h) (omega arith)
  | inr e ↦ rw e refl
]

takes-entering : (s : ResultEventSink) → (worker_takes s).entering ≡ s.entering
unfolding worker_takes
takes-entering s = ground arith

writes-entering : (w : _) (s : ResultEventSink) → (worker_writes w s).entering ≡ s.entering
unfolding worker_writes
writes-entering w s = ground arith

ends-entering : (s : ResultEventSink) → (stop_ends s).entering ≡ s.entering
unfolding stop_ends
ends-entering s = ground arith

-- At every moment, the events of the calls that have found the sink running are, each as often, those
-- that were pushed and those of the calls that are still under way.
pub run-copies :
    (t : Text) (s : State) (es : List Step)
    → copies t s.0.entering + copies t (checked_events s es)
      ≡ copies t (run s es).0.entering + copies t (accepted_events s es)
unfolding run step checked_events accepted_events stop_begins
run-copies t s [] = refl
run-copies t s (Step.checks event ∷ es) =
    let next = step s (Step.checks event) in
    copies-checked t event s.0 (checked_events next es) ∙ run-copies t next es
run-copies t s (Step.pushes k ∷ es) =
    let next = step s (Step.pushes k) in
    let h = run-copies t next es in
    let later = accepted_events next es in
    let all = copies-pick t k s.0.entering in
    let l = copies-left_of t (pick k s.0.entering) s.0.entering later all in
    let e = ap (copies t) (publish_pushes-left_of k s.0) in omega arith
run-copies t s (Step.takes ∷ es) =
    let next = step s Step.takes in
    ap (λ x. copies t x + copies t (checked_events next es)) (sym (takes-entering s.0))
    ∙ run-copies t next es
run-copies t s (Step.writes w ∷ es) =
    let next = step s (Step.writes w) in
    ap (λ x. copies t x + copies t (checked_events next es)) (sym (writes-entering w s.0))
    ∙ run-copies t next es
run-copies t s (Step.begins_stop ∷ es) = run-copies t (step s Step.begins_stop) es
run-copies t s (Step.ends_stop ∷ es) =
    let next = step s Step.ends_stop in
    ap (λ x. copies t x + copies t (checked_events next es)) (sym (ends-entering s.0))
    ∙ run-copies t next es

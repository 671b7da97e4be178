-- ===== src/Examples/Messages.antt =====
-- The bus of control messages.
use my_iperf.Prelude.{ℕ, zero, suc, false, List, [], ◌∷◌, ◌++◌, true, some, ◌≡◌, refl, arith, inl}
use my_iperf.Bus.{
  ControlMessageBus, Event, readies, suspends, delivers, run, step, await_suspend, await_ready,
  await_resume, deliver, timer_expires, cancel_all, operation_cancelled, wait_for,
}
use my_iperf.Bus.Maps.{lookup, update}
use my_iperf.Bus.Exclusive.{IsExclusive}
use my_iperf.Bus.Suspended.{IsRegistered, WaitsAlone, OneWaits, run-suspended}
use my_iperf.Bus.Fifo.{all_handed, all_brought, run-fifo}
use my_iperf.Bus.Wakeups.{suspend-deliver, deliver-ready, timeout-deliver, cancel_all-resume}
use my_iperf.Examples.Inputs.{quiet, fin_header}

abbrev history : List Event
history =
    delivers fin_header (1 ∷ [])
    ∷ delivers fin_header (2 ∷ [])
    ∷ readies 1
    ∷ suspends 1
    ∷ suspends 1
    ∷ delivers fin_header (3 ∷ [])
    ∷ []

quiet-IsExclusive : IsExclusive quiet
unfolding lookup
quiet-IsExclusive = record { apart = λ t. inl refl }

-- The second coroutine waits for what is brought after its suspension.
abbrev waits : List Event
waits = delivers fin_header (1 ∷ []) ∷ readies 1 ∷ suspends 2 ∷ []

quiet_handles : (a : ℕ) → (quiet.awaiters a).has_continuation ≡ false
unfolding wait_for
quiet_handles zero = refl
quiet_handles (suc a) = refl

quiet-IsRegistered : IsRegistered quiet
quiet-IsRegistered = record { registered = λ a s. let e = quiet_handles a in absurd (cc) }

waits-OneWaits : OneWaits quiet waits
unfolding OneWaits WaitsAlone step await_ready deliver wait_for lookup
waits-OneWaits = (tt, (tt, (refl, tt)))

run-suspended_example :
    let b = run quiet waits in
    (lookup (b.awaiters 2).type b.pending_waits ≡ some 2)
    × (b.buffered_messages (b.awaiters 2).type ≡ [])
unfolding run step await_ready await_suspend deliver wait_for lookup
run-suspended_example =
    run-suspended quiet waits quiet-IsExclusive quiet-IsRegistered waits-OneWaits 2
      (refl, refl, refl, refl)

run-fifo_example :
    all_handed quiet 5 history ++ (run quiet history).buffered_messages 5 ≡ all_brought 5 history
run-fifo_example = run-fifo quiet 5 history quiet-IsExclusive

suspend-deliver_example : (deliver (await_suspend quiet 1).1 fin_header (1 ∷ [])).0 ≡ some 1
unfolding wait_for
suspend-deliver_example =
    (suspend-deliver quiet 1 fin_header (1 ∷ []) (refl, refl, refl) (omega arith) refl refl).1

deliver-ready_example : (await_ready (deliver quiet fin_header (1 ∷ [])).1 1).0 ≡ true
unfolding wait_for lookup
deliver-ready_example =
    (deliver-ready quiet 1 fin_header (1 ∷ []) (refl, refl, refl) (omega arith) refl refl refl).1

timeout-deliver_example : (timer_expires (await_suspend quiet 1).1 1).0 ≡ some 1
unfolding wait_for
timeout-deliver_example =
    (timeout-deliver quiet 1 fin_header (1 ∷ []) (refl, refl, refl) (omega arith) refl refl refl).0

waiting : ControlMessageBus
waiting = record quiet {
  pending_waits = (5, 1) ∷ [];
  awaiters = update quiet.awaiters 1 (record (quiet.awaiters 1) { has_continuation = true });
}

cancel_all-resume_example : await_resume (cancel_all waiting).1 1 ≡ operation_cancelled
unfolding waiting lookup
cancel_all-resume_example = (cancel_all-resume waiting 5 1 refl refl).1

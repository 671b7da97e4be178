-- ===== src/Bus/Exclusive.antt =====
-- Waiting coroutines and buffered messages of one type.
use my_iperf.Prelude.{ℕ, ◌≡◌, ◌⊎◌, List, [], ◌∷◌, none, arith}
use my_iperf.Bus.Maps.{lookup, lookup-insert, lookup-erase}
use my_iperf.Bus.{ControlMessageBus, Event, readies, suspends, expires, delivers, step, run}

-- For each type: nobody waits, or nothing is buffered.
pub record IsExclusive (b : ControlMessageBus) : Type 0 where
  pub apart : (t : ℕ) → (lookup t b.pending_waits ≡ none) ⊎ (b.buffered_messages t ≡ [])

step-apart :
    (b : ControlMessageBus) (e : Event) (t : ℕ)
    → ((u : ℕ) → (lookup u b.pending_waits ≡ none) ⊎ (b.buffered_messages u ≡ []))
    → (lookup t (step b e).pending_waits ≡ none) ⊎ ((step b e).buffered_messages t ≡ [])
unfolding step
step-apart b (readies a) t h = ground (arith, h t, h (b.awaiters a).type)
step-apart b (suspends a) t h =
    ground
      (arith, h t, h (b.awaiters a).type, lookup-insert (b.awaiters a).type t a b.pending_waits)
step-apart b (expires a) t h =
    ground (arith, h t, lookup-erase (b.awaiters a).type t b.pending_waits)
step-apart b (delivers k payload) t h =
    ground (arith, h t, lookup-erase k.message_type t b.pending_waits)

pub step-IsExclusive : (b : ControlMessageBus) (e : Event) → IsExclusive b → IsExclusive (step b e)
step-IsExclusive b e h = record { apart = λ t. step-apart b e t h.apart }

-- Over any interleaving of waits, timers and deliveries, no type has both a registered wait and a
-- buffered message.
pub run-IsExclusive :
    (b : ControlMessageBus) (es : List Event) → IsExclusive b → IsExclusive (run b es)
unfolding run
run-IsExclusive b [] h = h
run-IsExclusive b (e ∷ es) h = run-IsExclusive (step b e) es (step-IsExclusive b e h)

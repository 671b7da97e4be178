-- ===== src/Bus/Suspended.antt =====
-- Suspended coroutines: each is registered, and finds nothing in the bus.
use my_iperf.Prelude.{ℕ, ◌≡◌, inl, inr, List, [], ◌∷◌, none, some, true, false, arith}
use my_iperf.Bus.Maps.{lookup, lookup-insert, lookup-erase}
use my_iperf.Bus.{
  ControlMessageBus, Awaiter, Event, readies, suspends, expires, delivers, step, run,
}
use my_iperf.Bus.Exclusive.{IsExclusive, run-IsExclusive}

-- It has given its handle away, and nothing has ended its wait.
abbrev pub IsSuspended : Awaiter → Type 0
IsSuspended w =
    (w.has_continuation ≡ true) × (w.message ≡ none) × (w.timed_out ≡ false) × (w.cancelled ≡ false)

pub record IsRegistered (b : ControlMessageBus) : Type 0 where
  pub registered :
      (a : ℕ) → IsSuspended (b.awaiters a) → lookup (b.awaiters a).type b.pending_waits ≡ some a

-- A coroutine begins to wait only for a type that no other is registered for.
unfoldable pub WaitsAlone : ControlMessageBus → Event → Type 0
WaitsAlone b (suspends a) = lookup (b.awaiters a).type b.pending_waits ≡ none
WaitsAlone b e = Unit

unfoldable pub OneWaits : ControlMessageBus → List Event → Type 0
OneWaits b [] = Unit
OneWaits b (e ∷ es) = WaitsAlone b e × OneWaits (step b e) es

step-registered :
    (b : ControlMessageBus) (e : Event) (a : ℕ)
    → WaitsAlone b e
    → (IsSuspended (b.awaiters a) → lookup (b.awaiters a).type b.pending_waits ≡ some a)
    → IsSuspended ((step b e).awaiters a)
    → lookup ((step b e).awaiters a).type (step b e).pending_waits ≡ some a
unfolding step WaitsAlone
step-registered b (readies c) a w h s = ground arith
step-registered b (suspends c) a w h s =
    ground (arith, lookup-insert (b.awaiters c).type (b.awaiters a).type c b.pending_waits)
step-registered b (expires c) a w h s =
    ground (arith, lookup-erase (b.awaiters c).type (b.awaiters a).type b.pending_waits)
step-registered b (delivers k payload) a w h s =
    ground (arith, lookup-erase k.message_type (b.awaiters a).type b.pending_waits)

run-IsRegistered :
    (b : ControlMessageBus) (es : List Event)
    → IsRegistered b
    → OneWaits b es
    → IsRegistered (run b es)
unfolding run OneWaits
run-IsRegistered b [] h w = h
run-IsRegistered b (e ∷ es) h w =
    run-IsRegistered (step b e) es
      (record { registered = λ a. step-registered b e a w.0 (h.registered a) }) w.1

-- Over any interleaving of waits, timers and deliveries in which a coroutine begins to wait only for a
-- type that no coroutine is registered for: a coroutine that is suspended, and whose wait no message,
-- timeout or cancellation has ended, is the one that the bus has registered for its type, and no
-- message of that type lies in the bus.
pub run-suspended :
    (b : ControlMessageBus) (es : List Event)
    → IsExclusive b
    → IsRegistered b
    → OneWaits b es
    → (a : ℕ)
    → let after = run b es in
      IsSuspended (after.awaiters a)
      → (lookup (after.awaiters a).type after.pending_waits ≡ some a)
        × (after.buffered_messages (after.awaiters a).type ≡ [])
run-suspended b es x r w a s =
    let here = (run-IsRegistered b es r w).registered a s in
    (
      here,
      elim ((run-IsExclusive b es x).apart ((run b es).awaiters a).type) [
        | inl e ↦ absurd (cc)
        | inr e ↦ e
      ],
    )

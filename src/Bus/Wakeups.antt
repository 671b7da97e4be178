-- ===== src/Bus/Wakeups.antt =====
-- How one wait ends: by a message, by its timer, or by cancellation.
use my_iperf.Prelude.{
  Bool, List, ℕ, ◌≡◌, ◌≢◌, refl, subst, [], ◌∷◌, true, false, none, some, Bytes, arith, ◌==◌, ◌∙◌,
  Bool-cases, inl, inr, if◌then◌else◌,
}
use mathlib.Core.List.{Memᴰ}
use my_iperf.Prelude.Int.{pos, ltb_ℤ}
use my_iperf.Protocol.{PacketHeader, value, MessageType}
use my_iperf.Bus.Maps.{Map, lookup, insert, lookup-insert, lookup-erase, update}
use my_iperf.Bus.{
  ControlMessageBus, Message, Awaiter, await_ready, await_suspend, await_resume, deliver,
  timer_expires, cancel_all, cancel_awaiters, continuations, received, operation_cancelled,
  timeout_waiting,
}

-- An awaiter that has not been used yet.
abbrev pub IsFresh : ControlMessageBus → ℕ → Type 0
IsFresh b a =
    ((b.awaiters a).cancelled ≡ false)
    × ((b.awaiters a).timed_out ≡ false)
    × ((b.awaiters a).cancel_timer ≡ false)

module _ (b : ControlMessageBus) (a : ℕ) (h : PacketHeader) (payload : Bytes) (fresh : IsFresh b a)
    (control : h.message_type ≢ value MessageType.data_packet)
    (same : h.message_type ≡ (b.awaiters a).type) where
  abbrev delivered : Message
  delivered = record { header = h; payload = payload }

  -- A coroutine that finds nothing buffered is suspended; the next message of its type resumes this
  -- coroutine, which gets exactly that message, and a timer that runs out later changes nothing.
  pub suspend-deliver :
      b.buffered_messages (b.awaiters a).type ≡ []
      → let s = await_suspend b a in
        let d = deliver s.1 h payload in
        (s.0 ≡ true)
        × (d.0 ≡ some a)
        × (await_resume d.1 a ≡ received (some delivered))
        × (timer_expires d.1 a ≡ (none, d.1))
  unfolding await_suspend deliver await_resume timer_expires
  suspend-deliver empty = ground (
    arith,
    lookup-insert (b.awaiters a).type h.message_type a b.pending_waits,
    lookup-erase h.message_type (b.awaiters a).type (insert (b.awaiters a).type a b.pending_waits),
  )

  -- A message that comes before anybody waits for it is buffered, and the first coroutine that waits
  -- for its type gets it without being suspended.
  pub deliver-ready :
      lookup (b.awaiters a).type b.pending_waits ≡ none
      → b.buffered_messages (b.awaiters a).type ≡ []
      → let d = deliver b h payload in
        let r = await_ready d.1 a in
        (d.0 ≡ none)
        × (r.0 ≡ true)
        × (await_resume r.1 a ≡ received (some delivered))
        × (r.1.buffered_messages (b.awaiters a).type ≡ [])
  unfolding deliver await_ready await_resume
  deliver-ready nobody empty = ground arith

  -- A timer that runs out while the coroutine waits resumes it with a timeout; a message that comes
  -- later is kept for the next wait.
  pub timeout-deliver :
      b.buffered_messages (b.awaiters a).type ≡ []
      → ltb_ℤ (pos 0) (b.awaiters a).timeout_ms ≡ true
      → let s = await_suspend b a in
        let x = timer_expires s.1 a in
        let d = deliver x.1 h payload in
        (x.0 ≡ some a)
        × (await_resume x.1 a ≡ timeout_waiting (b.awaiters a).type)
        × (d.0 ≡ none)
        × (d.1.buffered_messages (b.awaiters a).type ≡ delivered ∷ [])
  unfolding await_suspend deliver await_resume timer_expires
  timeout-deliver empty positive = ground (
    arith,
    lookup-insert (b.awaiters a).type (b.awaiters a).type a b.pending_waits,
    lookup-erase (b.awaiters a).type h.message_type (insert (b.awaiters a).type a b.pending_waits),
  )

cancel_awaiters-cancelled :
    (m : Map ℕ) (store : ℕ → Awaiter) (a : ℕ)
    → (store a).cancelled ≡ true
    → (cancel_awaiters m store a).cancelled ≡ true
unfolding cancel_awaiters
cancel_awaiters-cancelled [] store a h = h
cancel_awaiters-cancelled ((t, c) ∷ m) store a h =
    cancel_awaiters-cancelled m (update store c (record (store c) { cancelled = true })) a
      (ground arith)

cancel_awaiters-lookup :
    (m : Map ℕ) (store : ℕ → Awaiter) (t a : ℕ)
    → lookup t m ≡ some a
    → (cancel_awaiters m store a).cancelled ≡ true
unfolding cancel_awaiters lookup
cancel_awaiters-lookup [] store t a h = cc
cancel_awaiters-lookup ((u, c) ∷ m) store t a h = elim (Bool-cases (u == t)) [
  | inl e ↦
      cancel_awaiters-cancelled m (update store c (record (store c) { cancelled = true })) a
        (ground arith)
  | inr e ↦
      cancel_awaiters-lookup m (update store c (record (store c) { cancelled = true })) t a
        (ground arith)
]

cancel_awaiters-keeps :
    (m : Map ℕ) (store : ℕ → Awaiter) (a : ℕ)
    → (cancel_awaiters m store a).has_continuation ≡ (store a).has_continuation
unfolding cancel_awaiters
cancel_awaiters-keeps [] store a = refl
cancel_awaiters-keeps ((t, c) ∷ m) store a =
    cancel_awaiters-keeps m (update store c (record (store c) { cancelled = true })) a
    ∙ ground arith

first_of :
    (b : Bool) (a d : ℕ) (rest : List ℕ) → b ≡ true → a ≡ d → Memᴰ a (if b then d ∷ rest else rest)
first_of true a d rest h e = Memᴰ.head e
first_of false a d rest h e = cc

later_of :
    (b : Bool) (a d : ℕ) (rest : List ℕ) → Memᴰ a rest → Memᴰ a (if b then d ∷ rest else rest)
later_of true a d rest m = Memᴰ.tail m
later_of false a d rest m = m

continuations-Mem :
    (m : Map ℕ) (store : ℕ → Awaiter) (t a : ℕ)
    → lookup t m ≡ some a
    → (store a).has_continuation ≡ true
    → Memᴰ a (continuations m store)
unfolding continuations lookup
continuations-Mem [] store t a h c = cc
continuations-Mem ((u, d) ∷ m) store t a h c = elim (Bool-cases (u == t)) [
  | inl e ↦
      let same : a ≡ d = ground arith in
      first_of (store d).has_continuation a d (continuations m store)
        (subst (λ x. (store x).has_continuation ≡ true) same c) same
  | inr e ↦
      later_of (store d).has_continuation a d (continuations m store)
        (continuations-Mem m store t a (ground arith) c)
]

-- Cancelling the bus resumes every coroutine that is registered as waiting, each of which then gets an
-- exception, and leaves nobody registered and nothing buffered, for any type.
pub cancel_all-resume :
    (b : ControlMessageBus) (t a : ℕ)
    → lookup t b.pending_waits ≡ some a
    → (b.awaiters a).has_continuation ≡ true
    → let (resumed, after) = cancel_all b in
      Memᴰ a resumed
      × (await_resume after a ≡ operation_cancelled)
      × ((u : ℕ) → lookup u after.pending_waits ≡ none)
      × ((u : ℕ) → after.buffered_messages u ≡ [])
unfolding cancel_all await_resume lookup
cancel_all-resume b t a h c = (
  continuations-Mem b.pending_waits b.awaiters t a h c,
  rw (cancel_awaiters-lookup b.pending_waits b.awaiters t a h),
  λ u. refl,
  λ u. refl,
)

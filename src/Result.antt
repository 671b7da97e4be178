-- ===== src/Result.antt =====
-- Results of functions that may throw; an exception is modelled by its `what()`.
use my_iperf.Prelude.{Text, Bool, true, false, ◌≡◌, refl}

pub data Result {ℓ} (Value : Type ℓ) : Type ℓ where
  throw : Text → Result Value
  ok : Value → Result Value

infixl 5 ◌>>=◌ ◌>>◌
-- A call that follows another one; it is not reached after an exception.
abbrev pub ◌>>=◌ {ℓ ℓ'} : {X : Type ℓ} {Y : Type ℓ'} → Result X → (X → Result Y) → Result Y
throw what >>= next = throw what
ok x >>= next = next x

-- The same for a call that returns nothing.
abbrev pub ◌>>◌ {ℓ} : {Y : Type ℓ} → Result (Unit {0}) → Result Y → Result Y
throw what >> next = throw what
ok nothing >> next = next

-- `if (test) throw ...;`
abbrev pub throw_if : Bool → Text → Result (Unit {0})
throw_if true what = throw what
throw_if false what = ok tt

-- Every value that is returned satisfies `P`; nothing is said of an exception.
abbrev pub Yields {ℓ κ} : {X : Type ℓ} → (X → Type κ) → Result X → Type (ℓ ⊔ κ)
Yields {X} P r = (x : X) → r ≡ ok x → P x

pub Yields-bind {ℓ κ} :
    {X Y : Type ℓ} (P : X → Type κ) (Q : Y → Type κ) (r : Result X) (next : X → Result Y)
    → Yields P r
    → ((x : X) → P x → Yields Q (next x))
    → Yields Q (r >>= next)
Yields-bind P Q (throw what) next hr hnext y e = cc
Yields-bind P Q (ok x) next hr hnext y e = hnext x (hr x refl) y e

-- ===== src/Base/Effects.antt =====
-- What a piece of code that may fail to return normally gives.
use Prim.Native.Nat.{ℕ}
use mathlib.Core.Bool.{Bool, true, false}
use payloader.Base.Tests.{if◌then◌else◌}
use mathlib.Core.Path.{◌≡◌, refl}
use mathlib.Core.Option.{Option, none, some}
use mathlib.Core.Logic.{◌≢◌}

module _ {ℓ} where
  -- `fault` is undefined behaviour, such as an access out of bounds; `timeout` is a loop that has
  -- not ended when the fuel of the model is used up.
  pub data Outcome (T : Type ℓ) : Type ℓ where
    fault timeout : Outcome T
    ok : T → Outcome T

  -- An access that is out of bounds faults.
  abbrev pub access : {T : Type ℓ} → Option T → Outcome T
  access (some value) = ok value
  access none = fault

  pub access-eq-ok :
      {T : Type ℓ} (found : Option T) {value : T} → access found ≡ ok value → found ≡ some value
  access-eq-ok (some v) e = cc
  access-eq-ok none e = cc

module _ {ℓ κ} {S : Type ℓ} {T : Type κ} where
  infixl 5 ◌>>=◌
  -- Code behind a fault or an endless loop is not reached.
  abbrev pub ◌>>=◌ : Outcome S → (S → Outcome T) → Outcome T
  fault >>= next = fault
  timeout >>= next = timeout
  ok value >>= next = next value

  -- A sequence returns only through a value of its first part.
  pub bind-eq-ok :
      (first : Outcome S) (next : S → Outcome T) {result : T}
      → (first >>= next) ≡ ok result
      → (value : S) × (first ≡ ok value) × (next value ≡ ok result)
  bind-eq-ok fault next e = cc
  bind-eq-ok timeout next e = cc
  bind-eq-ok (ok v) next e = (v, refl, e)

module _ {ℓ} where
  -- A piece of code that does not go on for ever.
  abbrev pub Ends : {T : Type ℓ} → Outcome T → Type 0
  Ends fault = Unit
  Ends timeout = ⊥
  Ends (ok value) = Unit

  pub access-Ends : {T : Type ℓ} (found : Option T) → Ends (access found)
  access-Ends none = tt
  access-Ends (some value) = tt

  pub Ends-not_timeout : {T : Type ℓ} (code : Outcome T) → Ends code → code ≢ timeout
  Ends-not_timeout fault ends e = cc
  Ends-not_timeout timeout ends e = ends
  Ends-not_timeout (ok value) ends e = cc

module _ {ℓ κ} {S : Type ℓ} {T : Type κ} where
  -- A sequence ends if its first part does and what follows on each value does.
  pub bind-Ends :
      (first : Outcome S) (next : S → Outcome T)
      → Ends first
      → ((value : S) → first ≡ ok value → Ends (next value))
      → Ends (first >>= next)
  bind-Ends fault next ends rest = tt
  bind-Ends timeout next ends rest = ends
  bind-Ends (ok value) next ends rest = rest value refl

pub if-Ends {ℓ} :
    {T : Type ℓ} (b : Bool) (x y : Outcome T) → Ends x → Ends y → Ends (if b then x else y)
if-Ends true x y p q = p
if-Ends false x y p q = q

pub option-Ends {ℓ} :
    {T : Type ℓ} (o : Option ℕ) (x : Outcome T) (f : ℕ → Outcome T)
    → Ends x
    → ((n : ℕ) → Ends (f n))
    → Ends (elim o [ none ↦ x | some n ↦ f n ])
option-Ends none x f p q = p
option-Ends (some n) x f p q = q n

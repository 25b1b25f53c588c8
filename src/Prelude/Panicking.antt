-- ===== src/Prelude/Panicking.antt =====
-- A call that returns, or panics with the message of its `assert!` or `expect`.
use Prim.Native.String.{String}
use mathlib.Core.Path.{◌≡◌, refl}
use mathlib.Core.Bool.{Bool, true, false}
use mathlib.Core.Option.{Option, none, some}

pub data Run {ℓ} (A : Type ℓ) : Type ℓ where
  returns : A → Run A
  panics : String → Run A

infixl 5 ◌>>=◌ ◌>>◌
abbrev pub ◌>>=◌ {ℓ κ} : {A : Type ℓ} {B : Type κ} → Run A → (A → Run B) → Run B
returns a >>= f = f a
panics m >>= f = panics m

abbrev pub ◌>>◌ {ℓ κ} : {A : Type ℓ} {B : Type κ} → Run A → Run B → Run B
r >> s = r >>= λ _. s

-- `Option::expect`.
abbrev pub expect {ℓ} : {A : Type ℓ} → Option A → String → Run A
expect none message = panics message
expect (some a) message = returns a

-- `assert!`.
abbrev pub assert : Bool → String → Run (Unit {0})
assert true message = returns tt
assert false message = panics message

-- Inversion of a call that returned.
pub >>=-eq-returns {ℓ κ} :
    {A : Type ℓ} {B : Type κ} (r : Run A) (f : A → Run B) {b : B}
    → (r >>= f) ≡ returns b
    → (a : A) × (r ≡ returns a) × (f a ≡ returns b)
>>=-eq-returns (returns a) f h = (a, refl, h)
>>=-eq-returns (panics m) f h = cc

-- A call that returned past an `assert!`.
pub assert-eq-returns {ℓ} :
    {A : Type ℓ} (c : Bool) (message : String) (r : Run A) {a : A}
    → (assert c message >> r) ≡ returns a
    → (c ≡ true) × (r ≡ returns a)
assert-eq-returns true message r h = (refl, h)
assert-eq-returns false message r h = cc

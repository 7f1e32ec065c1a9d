-- ===== src/Prelude/Run.antt =====
-- How a call of a C function ends: with a value, with undefined behaviour or a failed assertion,
-- or, in the model only, with the fuel of a loop used up.
use Prim.Native.Nat.{ℕ}
use mathlib.Core.Path.{◌≡◌, refl}
use mathlib.Core.Bool.{Bool, true, false, ◌&&◌}
use mathlib.Core.Option.{Option, none, some}
use interview_questions.Prelude.Tests.{if◌then◌else◌}
use interview_questions.Prelude.Int.{ℤ, pos, negsuc, leb_ℤ}

pub data Run {ℓ} (A : Type ℓ) : Type ℓ where
  done : A → Run A
  fault : Run A
  no_fuel : Run A

infixl 5 ◌>>=◌ ◌>>◌
abbrev pub ◌>>=◌ {ℓ κ} : {A : Type ℓ} {B : Type κ} → Run A → (A → Run B) → Run B
done a >>= f = f a
fault >>= f = fault
no_fuel >>= f = no_fuel

abbrev pub ◌>>◌ {ℓ} : {B : Type ℓ} → Run (Unit {0}) → Run B → Run B
m >> k = m >>= λ _. k

-- `assert(b)`.
abbrev pub assert : Bool → Run (Unit {0})
assert true = done tt
assert false = fault

-- The smallest and the largest 32-bit `int`; a result outside is undefined behaviour.
abbrev pub int_min : ℤ
int_min = negsuc 2147483647

abbrev pub int_max : ℤ
int_max = pos 2147483647

abbrev pub as_int : ℤ → Run ℤ
as_int n = if leb_ℤ n int_max && leb_ℤ int_min n then done n else fault

-- What is not there cannot be read.
abbrev pub present {ℓ} : {A : Type ℓ} → Option A → Run A
present none = fault
present (some a) = done a

-- The run ends normally, with a result that satisfies `P`.
abbrev pub Returns {ℓ} : {A : Type ℓ} → Run A → (A → Type 0) → Type 0
Returns (done a) P = P a
Returns fault P = ⊥
Returns no_fuel P = ⊥

-- A fact for each index about the result is a fact about all of them.
pub Returns-all :
    {A : Type 0} (r : Run A) (P : ℕ → A → Type 0)
    → ((i : ℕ) → Returns r (P i))
    → Returns r (λ a. (i : ℕ) → P i a)
Returns-all (done a) P h = h
Returns-all fault P h = h 0
Returns-all no_fuel P h = h 0

pub Returns-bind :
    {A B : Type 0} (P : A → Type 0) (Q : B → Type 0) (r : Run A) (k : A → Run B)
    → Returns r P
    → ((a : A) → P a → Returns (k a) Q)
    → Returns (r >>= k) Q
Returns-bind P Q (done a) k p next = next a p
Returns-bind P Q fault k p next = p
Returns-bind P Q no_fuel k p next = p

pub Returns-mono :
    {A : Type 0} (P Q : A → Type 0) (r : Run A) → Returns r P → ((a : A) → P a → Q a) → Returns r Q
Returns-mono P Q (done a) p weaken = weaken a p
Returns-mono P Q fault p weaken = p
Returns-mono P Q no_fuel p weaken = p

-- A run that ends normally is `done`.
pub Returns→done :
    {A : Type 0} (P : A → Type 0) (r : Run A) → Returns r P → (a : A) × (r ≡ done a) × P a
Returns→done P (done a) p = (a, refl, p)
Returns→done P fault p = absurd p
Returns→done P no_fuel p = absurd p

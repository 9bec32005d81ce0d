-- ===== src/Prelude/Outcome.antt =====
-- How a call ends: with a value, or in an abort, which is a failed assert(), exit(EXIT_FAILURE), or
-- an access outside of a container.
use mathlib.Core.Path.{◌≡◌, refl}
use mathlib.Core.Bool.{Bool, true, false}
use mathlib.Core.List.{List}
use mathlib.Core.Option.{Option, none, some}
use crocks.Prelude.Int.{ℤ, pos, negsuc}
use crocks.Prelude.Lists.{get_elem?}
use crocks.Prelude.Tests.{if◌then◌else◌}

pub data Run {ℓ} (A : Type ℓ) : Type ℓ where
  ok : A → Run A
  abort : Run A

infixl 5 ◌>>=◌ ◌>>◌
abbrev pub ◌>>=◌ {ℓ κ} : {A : Type ℓ} {B : Type κ} → Run A → (A → Run B) → Run B
ok a >>= f = f a
abort >>= f = abort

abbrev pub ◌>>◌ {ℓ} : {B : Type ℓ} → Run (Unit {0}) → Run B → Run B
m >> k = m >>= λ _. k

abbrev pub assert : Bool → Run (Unit {0})
assert true = ok tt
assert false = abort

abbrev pub or_abort {ℓ} : {A : Type ℓ} → Option A → Run A
or_abort none = abort
or_abort (some a) = ok a

-- Access by an `int` index.
abbrev pub at {ℓ} : {A : Type ℓ} → List A → ℤ → Run A
at xs (pos i) = or_abort (get_elem? xs i)
at xs (negsuc i) = abort

-- What holds of the value of a call that returns.
abbrev pub OnOk {ℓ κ} : {A : Type ℓ} → (A → Type κ) → Run A → Type κ
OnOk P (ok a) = P a
OnOk P abort = Unit

pub >>=-OnOk {ℓ κ μ ν} :
    {A : Type ℓ} {B : Type κ} (P : A → Type μ) (Q : B → Type ν) (m : Run A) (f : A → Run B)
    → OnOk P m
    → ((a : A) → P a → OnOk Q (f a))
    → OnOk Q (m >>= f)
>>=-OnOk P Q (ok a) f h k = k a h
>>=-OnOk P Q abort f h k = tt

-- where nothing needs to be known of the first call
pub >>=-OnOk_any {ℓ κ ν} :
    {A : Type ℓ} {B : Type κ} (Q : B → Type ν) (m : Run A) (f : A → Run B)
    → ((a : A) → OnOk Q (f a))
    → OnOk Q (m >>= f)
>>=-OnOk_any Q (ok a) f k = k a
>>=-OnOk_any Q abort f k = tt

pub if-OnOk {ℓ κ} :
    {A : Type ℓ} (P : A → Type κ) (b : Bool) (m n : Run A)
    → (b ≡ true → OnOk P m)
    → (b ≡ false → OnOk P n)
    → OnOk P (if b then m else n)
if-OnOk P true m n h k = h refl
if-OnOk P false m n h k = k refl

pub >>=-cong {ℓ κ} :
    {A : Type ℓ} {B : Type κ} (m : Run A) (f g : A → Run B)
    → ((a : A) → f a ≡ g a)
    → m >>= f ≡ m >>= g
>>=-cong (ok a) f g h = h a
>>=-cong abort f g h = refl

pub >>=-assoc {ℓ κ μ} :
    {A : Type ℓ} {B : Type κ} {C : Type μ} (m : Run A) (f : A → Run B) (g : B → Run C)
    → m >>= f >>= g ≡ m >>= (λ a. f a >>= g)
>>=-assoc (ok a) f g = refl
>>=-assoc abort f g = refl

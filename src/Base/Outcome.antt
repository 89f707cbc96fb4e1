-- ===== src/Base/Outcome.antt =====
-- Outcomes of C code: a value, or undefined behaviour. `fault` stands for a read or a write
-- outside an object, a use of a null pointer or of a freed one.
use mathlib.Core.Path.{◌≡◌, refl, ◌∙◌}
use mathlib.Core.Logic.{◌⊎◌, inl, inr}
use mathlib.Core.Option.{Option, none, some}
use mathlib.Core.Bool.{Bool, true, false}
use intern_status_update.Base.Tests.{if◌then◌else◌}

pub data Run {ℓ} (A : Type ℓ) : Type ℓ where
  ok : A → Run A
  fault : Run A

infixl 5 ◌>>=◌ ◌>>◌
abbrev pub ◌>>=◌ {ℓ κ} : {A : Type ℓ} {B : Type κ} → Run A → (A → Run B) → Run B
ok a >>= f = f a
fault >>= f = fault

abbrev pub ◌>>◌ {ℓ κ} : {A : Type ℓ} {B : Type κ} → Run A → Run B → Run B
m >> k = m >>= λ _. k

-- A pointer that the code uses without a test.
abbrev pub deref {ℓ} : {A : Type ℓ} → Option A → Run A
deref none = fault
deref (some a) = ok a

pub >>=-eq-ok {ℓ κ} :
    {A : Type ℓ} {B : Type κ} (run : Run A) (next : A → Run B) {result : B}
    → run >>= next ≡ ok result
    → (middle : A) × (run ≡ ok middle) × (next middle ≡ ok result)
>>=-eq-ok fault next e = cc
>>=-eq-ok (ok middle) next e = (middle, refl, e)

pub Run-cases {ℓ} : {A : Type ℓ} (m : Run A) → (m ≡ fault) ⊎ ((a : A) × (m ≡ ok a))
Run-cases fault = inl refl
Run-cases (ok a) = inr (a, refl)

pub ok-injective {ℓ} : {A : Type ℓ} {a b : A} → ok a ≡ ok b → a ≡ b
ok-injective h = cc

pub >>=-assoc {ℓ κ μ} :
    {A : Type ℓ} {B : Type κ} {C : Type μ} (m : Run A) (f : A → Run B) (g : B → Run C)
    → m >>= f >>= g ≡ (m >>= λ a. f a >>= g)
>>=-assoc (ok a) f g = refl
>>=-assoc fault f g = refl

pub >>=-same {ℓ κ} :
    {A : Type ℓ} {B : Type κ} (m : Run A) (f g : A → Run B)
    → ((a : A) → f a ≡ g a)
    → m >>= f ≡ m >>= g
>>=-same (ok a) f g h = h a
>>=-same fault f g h = refl

-- A step that returned, for what follows from it.
pub after {ℓ κ μ} :
    {A : Type ℓ} {B : Type κ} {P : Type μ} (m : Run A) (f : A → Run B) (b : B)
    → m >>= f ≡ ok b
    → ((a : A) → m ≡ ok a → f a ≡ ok b → P)
    → P
after m f b h use_it = let (a, e, g) = >>=-eq-ok m f h in use_it a e g

pub deref-eq-ok {ℓ} : {A : Type ℓ} (o : Option A) (a : A) → deref o ≡ ok a → o ≡ some a
deref-eq-ok none a h = cc
deref-eq-ok (some x) a h = let same : x ≡ a = ok-injective h in cc

-- One step of code whose outcome is known.
pub >>=-ok {ℓ κ} :
    {A : Type ℓ} {B : Type κ} (m : Run A) (f : A → Run B) (a : A) → m ≡ ok a → m >>= f ≡ f a
>>=-ok m f a e = rw e refl

-- A guard that let a value through.
pub if_ok {ℓ} : {A : Type ℓ} (b : Bool) (x a : A) → (if b then ok x else fault) ≡ ok a → x ≡ a
if_ok true x a h = ok-injective h
if_ok false x a h = cc

-- What follows from either branch follows.
pub if_after {ℓ κ} :
    {A : Type κ} {P : Type ℓ} (b : Bool) (m n : Run A) (a : A)
    → (if b then m else n) ≡ ok a
    → (m ≡ ok a → P)
    → (n ≡ ok a → P)
    → P
if_after true m n a h f g = f h
if_after false m n a h f g = g h

-- Code that returns, and does not fault.
abbrev pub Returns {ℓ} : {A : Type ℓ} → Run A → Type ℓ
Returns {A} m = (a : A) × (m ≡ ok a)

pub if_Returns {ℓ} :
    {A : Type ℓ} (b : Bool) (m n : Run A) → Returns m → Returns n → Returns (if b then m else n)
if_Returns true m n f g = f
if_Returns false m n f g = g

-- A step that returns, before one that does.
pub >>=-Returns {ℓ κ} :
    {A : Type ℓ} {B : Type κ} (m : Run A) (f : A → Run B) (a : A)
    → m ≡ ok a
    → Returns (f a)
    → Returns (m >>= f)
>>=-Returns m f a e (b, h) = (b, >>=-ok m f a e ∙ h)

-- ===== src/Base/Memory.antt =====
-- Runs of code that reads and writes memory, and loops that may need more fuel.
use mathlib.Core.Path.{◌≡◌, refl}
use mathlib.Core.Logic.{◌⊎◌, inl, inr}
use mathlib.Core.Option.{Option, none, some}

-- `fault` is a read or a write outside of the memory that the code was given, which C leaves
-- undefined; `stuck` says that the fuel of a loop ran out.
pub data Run {ℓ} (A : Type ℓ) : Type ℓ where
  done : A → Run A
  fault : Run A
  stuck : Run A

infixl 5 ◌>>=◌ ◌>>◌
abbrev pub ◌>>=◌ {ℓ κ} : {A : Type ℓ} {B : Type κ} → Run A → (A → Run B) → Run B
done a >>= f = f a
fault >>= f = fault
stuck >>= f = stuck

abbrev pub ◌>>◌ {ℓ} : {B : Type ℓ} → Run (Unit {0}) → Run B → Run B
m >> k = m >>= λ _. k

-- A read that found nothing is a fault.
abbrev pub found {ℓ} : {A : Type ℓ} → Option A → Run A
found none = fault
found (some a) = done a

pub >>=-eq-done {ℓ κ} :
    {A : Type ℓ} {B : Type κ} (m : Run A) (f : A → Run B) {b : B}
    → (m >>= f) ≡ done b
    → (a : A) × (m ≡ done a) × (f a ≡ done b)
>>=-eq-done (done a) f h = (a, refl, h)
>>=-eq-done fault f h = cc
>>=-eq-done stuck f h = cc

pub done-injective {ℓ} : {A : Type ℓ} {a b : A} → done a ≡ done b → a ≡ b
done-injective h = cc

-- A run that is not short of fuel returns or faults.
pub Run-cases {ℓ} :
    {A : Type ℓ} (r : Run A) → (r ≡ stuck → ⊥) → ((a : A) × (r ≡ done a)) ⊎ (r ≡ fault)
Run-cases (done a) h = inl (a, refl)
Run-cases fault h = inr refl
Run-cases stuck h = absurd (h refl)

pub >>=-ne-stuck {ℓ κ} :
    {A : Type ℓ} {B : Type κ} (m : Run A) (f : A → Run B)
    → (m ≡ stuck → ⊥)
    → ((a : A) → m ≡ done a → f a ≡ stuck → ⊥)
    → (m >>= f) ≡ stuck
    → ⊥
>>=-ne-stuck (done a) f p q h = q a refl h
>>=-ne-stuck fault f p q h = cc
>>=-ne-stuck stuck f p q h = p refl

pub found-ne-stuck {ℓ} : {A : Type ℓ} (o : Option A) → found o ≡ stuck → ⊥
found-ne-stuck none h = cc
found-ne-stuck (some a) h = cc

-- A run that has fuel, returns what a predicate holds of, and faults only where `F` holds.
abbrev pub Ends {ℓ} : {A : Type ℓ} → (F : Type 0) → (A → Type 0) → Run A → Type 0
Ends F P (done a) = P a
Ends F P fault = F
Ends F P stuck = ⊥

pub >>=-Ends {ℓ κ} :
    {A : Type ℓ} {B : Type κ} (F : Type 0) (P : A → Type 0) (Q : B → Type 0) (m : Run A)
    (f : A → Run B)
    → Ends F P m
    → ((a : A) → P a → Ends F Q (f a))
    → Ends F Q (m >>= f)
>>=-Ends F P Q (done a) f h k = k a h
>>=-Ends F P Q fault f h k = h
>>=-Ends F P Q stuck f h k = absurd h

-- A run returns what a predicate holds of, when it returns.
abbrev pub Gives {ℓ} : {A : Type ℓ} → (A → Type 0) → Run A → Type 0
Gives P (done a) = P a
Gives P fault = Unit
Gives P stuck = Unit

pub >>=-Gives {ℓ κ} :
    {A : Type ℓ} {B : Type κ} (P : A → Type 0) (Q : B → Type 0) (m : Run A) (f : A → Run B)
    → Gives P m
    → ((a : A) → P a → Gives Q (f a))
    → Gives Q (m >>= f)
>>=-Gives P Q (done a) f h k = k a h
>>=-Gives P Q fault f h k = tt
>>=-Gives P Q stuck f h k = tt

pub Gives-any {ℓ} : {A : Type ℓ} (m : Run A) → Gives (λ _. Unit {0}) m
Gives-any (done a) = tt
Gives-any fault = tt
Gives-any stuck = tt

pub Gives-map {ℓ} :
    {A : Type ℓ} {P Q : A → Type 0} (m : Run A) → ((a : A) → P a → Q a) → Gives P m → Gives Q m
Gives-map (done a) k h = k a h
Gives-map fault k h = tt
Gives-map stuck k h = tt

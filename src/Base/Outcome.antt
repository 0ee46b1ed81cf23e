-- ===== src/Base/Outcome.antt =====
-- The outcome of code that may meet undefined behaviour, or not end within its fuel.
use mathlib.Core.Path.{◌≡◌, refl}

pub data Run {ℓ} (A : Type ℓ) : Type ℓ where
  ok : A → Run A
  undefined : Run A
  starved : Run A

infixl 5 ◌>>=◌
abbrev pub ◌>>=◌ {ℓ κ} : {A : Type ℓ} {B : Type κ} → Run A → (A → Run B) → Run B
ok a >>= f = f a
undefined >>= f = undefined
starved >>= f = starved

pub >>=-eq-ok {ℓ κ} :
    {A : Type ℓ} {B : Type κ} (m : Run A) (f : A → Run B) {b : B}
    → m >>= f ≡ ok b
    → (a : A) × (m ≡ ok a) × (f a ≡ ok b)
>>=-eq-ok (ok a) f h = (a, refl, h)
>>=-eq-ok undefined f h = cc
>>=-eq-ok starved f h = cc

-- The code returns: it meets no undefined behaviour and its fuel is enough.
abbrev pub Ends {ℓ} : {A : Type ℓ} → Run A → Type 0
Ends (ok a) = Unit
Ends undefined = ⊥
Ends starved = ⊥

pub Ends-ok {ℓ} : {A : Type ℓ} (m : Run A) → Ends m → (a : A) × (m ≡ ok a)
Ends-ok (ok a) h = (a, refl)
Ends-ok undefined h = absurd h
Ends-ok starved h = absurd h

pub Ends->>= {ℓ κ} :
    {A : Type ℓ} {B : Type κ} (m : Run A) (f : A → Run B)
    → Ends m
    → ((a : A) → m ≡ ok a → Ends (f a))
    → Ends (m >>= f)
Ends->>= (ok a) f h k = k a refl
Ends->>= undefined f h k = absurd h
Ends->>= starved f h k = absurd h

-- The code returns a value with the property.
abbrev pub Gives {ℓ} : {A : Type ℓ} → Run A → (A → Type 0) → Type 0
Gives (ok a) P = P a
Gives undefined P = ⊥
Gives starved P = ⊥

pub Gives->>= {ℓ κ} :
    {A : Type ℓ} {B : Type κ} (P : A → Type 0) (Q : B → Type 0) (m : Run A) (f : A → Run B)
    → Gives m P
    → ((a : A) → P a → Gives (f a) Q)
    → Gives (m >>= f) Q
Gives->>= P Q (ok a) f h k = k a h
Gives->>= P Q undefined f h k = absurd h
Gives->>= P Q starved f h k = absurd h

pub Gives-ok {ℓ} :
    {A : Type ℓ} (P : A → Type 0) (m : Run A) → Gives m P → (a : A) × (m ≡ ok a) × P a
Gives-ok P (ok a) h = (a, refl, h)
Gives-ok P undefined h = absurd h
Gives-ok P starved h = absurd h

pub ok-injective {ℓ} : {A : Type ℓ} {a b : A} → ok a ≡ ok b → a ≡ b
ok-injective h = cc h

pub ok-Gives {ℓ} : {A : Type ℓ} (P : A → Type 0) (m : Run A) {a : A} → m ≡ ok a → P a → Gives m P
ok-Gives P m h p = rw h p

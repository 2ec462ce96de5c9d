-- ===== src/Prelude/Calls.antt =====
-- What a call of C code comes to.
use mathlib.Core.Path.{ap, ◌≡◌, refl, subst}
use mathlib.Core.Option.{Option, none, some}
use mathlib.Core.Bool.{Bool, true, false}
use highway.Prelude.Tests.{if◌then◌else◌}

-- `ret` returns. `fault` is undefined behaviour: a read or a write outside an object, a null
-- pointer that is followed, a signed overflow. `hang` is a loop that runs out of the rounds that
-- its model allows.
pub data Outcome {ℓ} (A : Type ℓ) : Type ℓ where
  ret : A → Outcome A
  fault : Outcome A
  hang : Outcome A

infixl 5 ◌>>=◌
abbrev pub ◌>>=◌ {ℓ κ} : {A : Type ℓ} {B : Type κ} → Outcome A → (A → Outcome B) → Outcome B
ret a >>= f = f a
fault >>= f = fault
hang >>= f = hang

-- A pointer that is followed: `none` lies outside the object.
abbrev pub access {ℓ} : {A : Type ℓ} → Option A → Outcome A
access none = fault
access (some a) = ret a

pub >>=-eq-ret {ℓ κ} :
    {A : Type ℓ} {B : Type κ} (m : Outcome A) (f : A → Outcome B) {b : B}
    → (m >>= f) ≡ ret b
    → (a : A) × (m ≡ ret a) × (f a ≡ ret b)
>>=-eq-ret (ret a) f h = (a, refl, h)
>>=-eq-ret fault f h = cc
>>=-eq-ret hang f h = cc

pub ret-injective {ℓ} : {A : Type ℓ} {a b : A} → ◌≡◌ {A = Outcome A} (ret a) (ret b) → a ≡ b
ret-injective e = cc

-- The call comes to an end, be it in undefined behaviour, and what it returns is as `P` says.
abbrev pub Ends {ℓ} : {A : Type ℓ} (P : A → Type 0) → Outcome A → Type 0
Ends P (ret a) = P a
Ends P fault = Unit
Ends P hang = ⊥

-- With nothing said of what is returned.
abbrev pub Any {ℓ} : {A : Type ℓ} → A → Type 0
Any a = Unit

pub >>=-Ends {ℓ κ} :
    {A : Type ℓ} {B : Type κ} (P : A → Type 0) (Q : B → Type 0) (m : Outcome A) (f : A → Outcome B)
    → Ends P m
    → ((a : A) → P a → Ends Q (f a))
    → Ends Q (m >>= f)
>>=-Ends P Q (ret a) f h k = k a h
>>=-Ends P Q fault f h k = tt
>>=-Ends P Q hang f h k = absurd h

pub if-Ends {ℓ} :
    {A : Type ℓ} (P : A → Type 0) (b : Bool) (x y : Outcome A)
    → (b ≡ true → Ends P x)
    → (b ≡ false → Ends P y)
    → Ends P (if b then x else y)
if-Ends P true x y hx hy = hx refl
if-Ends P false x y hx hy = hy refl

pub access-Ends {ℓ} : {A : Type ℓ} (o : Option A) → Ends Any (access o)
access-Ends none = tt
access-Ends (some a) = tt

-- A call whose answer is known, in a do block.
pub >>=-ret {ℓ κ} :
    {A : Type ℓ} {B : Type κ} (m : Outcome A) (f : A → Outcome B) (a : A)
    → m ≡ ret a
    → (m >>= f) ≡ f a
>>=-ret m f a e = ap (λ n. n >>= f) e

pub >>=-fault {ℓ κ} :
    {A : Type ℓ} {B : Type κ} (m : Outcome A) (f : A → Outcome B) → m ≡ fault → (m >>= f) ≡ fault
>>=-fault m f e = ap (λ n. n >>= f) e

-- The call returns, and what it returns is as `P` says.
abbrev pub Returns {ℓ} : {A : Type ℓ} (P : A → Type 0) → Outcome A → Type 0
Returns P (ret a) = P a
Returns P fault = ⊥
Returns P hang = ⊥

pub >>=-Returns {ℓ κ} :
    {A : Type ℓ} {B : Type κ} (P : A → Type 0) (Q : B → Type 0) (m : Outcome A) (f : A → Outcome B)
    → Returns P m
    → ((a : A) → P a → Returns Q (f a))
    → Returns Q (m >>= f)
>>=-Returns P Q (ret a) f h k = k a h
>>=-Returns P Q fault f h k = absurd h
>>=-Returns P Q hang f h k = absurd h

pub if-Returns {ℓ} :
    {A : Type ℓ} (P : A → Type 0) (b : Bool) (x y : Outcome A)
    → (b ≡ true → Returns P x)
    → (b ≡ false → Returns P y)
    → Returns P (if b then x else y)
if-Returns P true x y hx hy = hx refl
if-Returns P false x y hx hy = hy refl

pub Returns-ret {ℓ} :
    {A : Type ℓ} (P : A → Type 0) (m : Outcome A) → Returns P m → (a : A) × (m ≡ ret a) × P a
Returns-ret P (ret a) h = (a, refl, h)
Returns-ret P fault h = absurd h
Returns-ret P hang h = absurd h

-- What a call is known to return is as `P` says.
pub Returns-at {ℓ} :
    {A : Type ℓ} (P : A → Type 0) (m : Outcome A) (a : A) → Returns P m → m ≡ ret a → P a
Returns-at P m a h e = subst (Returns P) e h

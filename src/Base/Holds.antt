-- ===== src/Base/Holds.antt =====
-- Chains of operations that may fail, and what holds of their result if there is one.
use mathlib.Core.Bool.{Bool, true, false}
use mathlib.Core.Option.{Option, none, some}
use mathlib.Core.Path.{◌≡◌, refl, subst}
use jabberoo.Base.Logic.{if◌then◌else◌}

infixl 5 ◌>>=◌
abbrev pub ◌>>=◌ {ℓ κ} : {A : Type ℓ} {B : Type κ} → Option A → (A → Option B) → Option B
none >>= f = none
some a >>= f = f a

-- The result, if there is one, has the property.
abbrev pub Holds {ℓ κ} : {A : Type ℓ} → (A → Type κ) → Option A → Type κ
Holds P none = Unit
Holds P (some a) = P a

pub Holds-bind {ℓ κ ℓ' κ'} :
    {A : Type ℓ} {B : Type κ} (P : A → Type ℓ') (Q : B → Type κ') (o : Option A) (f : A → Option B)
    → Holds P o
    → ((a : A) → P a → Holds Q (f a))
    → Holds Q (o >>= f)
Holds-bind P Q none f h k = tt
Holds-bind P Q (some a) f h k = k a h

pub Holds-map {ℓ κ κ'} :
    {A : Type ℓ} (P : A → Type κ) (Q : A → Type κ') (o : Option A)
    → Holds P o
    → ((a : A) → P a → Q a)
    → Holds Q o
Holds-map P Q none h k = tt
Holds-map P Q (some a) h k = k a h

pub Holds-if {ℓ κ} :
    {A : Type ℓ} (P : A → Type κ) (b : Bool) (x y : Option A)
    → Holds P x
    → Holds P y
    → Holds P (if b then x else y)
Holds-if P true x y h k = h
Holds-if P false x y h k = k

pub Holds-at {ℓ κ} :
    {A : Type ℓ} (P : A → Type κ) (o : Option A) (a : A) → o ≡ some a → Holds P o → P a
Holds-at P o a e h = subst (Holds P) e h

pub Holds-cases {ℓ κ} :
    {A : Type ℓ} (P : A → Type κ) (b : Bool) (x y : Option A)
    → (b ≡ true → Holds P x)
    → (b ≡ false → Holds P y)
    → Holds P (if b then x else y)
Holds-cases P true x y h k = h refl
Holds-cases P false x y h k = k refl

pub Holds-elim {ℓ κ} :
    {A B : Type ℓ} (P : A → Type κ) (o : Option B) (x : Option A) (f : B → Option A)
    → Holds P x
    → ((b : B) → Holds P (f b))
    → Holds P (elim o [ none ↦ x | some b ↦ f b ])
Holds-elim P none x f h k = h
Holds-elim P (some b) x f h k = k b

-- A chain holds of its result what its last step makes true whatever it starts from.
pub Holds-last {ℓ κ κ'} :
    {A : Type ℓ} {B : Type κ} (Q : B → Type κ') (o : Option A) (f : A → Option B)
    → ((a : A) → Holds Q (f a))
    → Holds Q (o >>= f)
Holds-last Q none f k = tt
Holds-last Q (some a) f k = k a

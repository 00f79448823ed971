-- ===== src/Prelude/Options.antt =====
-- Chains of computations that may fail.
use mathlib.Core.Path.{◌≡◌, refl, sym, subst}
use mathlib.Core.Logic.{◌⊎◌, inl, inr}
use mathlib.Core.Bool.{Bool, true, false}
use http2rtsp.Prelude.Tests.{if◌then◌else◌}
use mathlib.Core.Option.{Option, none, some}

module _ {ℓ κ} {A : Type ℓ} {B : Type κ} where
  infixl 5 ◌>>=◌
  abbrev pub ◌>>=◌ : Option A → (A → Option B) → Option B
  none >>= f = none
  some a >>= f = f a

-- To split on a computed value and keep the equation.
pub Option-cases {ℓ} : {A : Type ℓ} → (o : Option A) → (o ≡ none) ⊎ ((a : A) × (o ≡ some a))
Option-cases none = inl refl
Option-cases (some a) = inr (a, refl)

-- What holds of the value, if there is one, and how it passes along a chain.
abbrev pub Every {ℓ κ} : {A : Type ℓ} → (A → Type κ) → Option A → Type κ
Every P none = Unit
Every P (some a) = P a

pub Every->>= {ℓ κ} :
    {A B : Type ℓ} (P : A → Type κ) (Q : B → Type κ) (m : Option A) (f : A → Option B)
    → Every P m
    → ((a : A) → P a → Every Q (f a))
    → Every Q (m >>= f)
Every->>= P Q none f p step = tt
Every->>= P Q (some a) f p step = step a p

pub Every-some {ℓ κ} :
    {A : Type ℓ} (P : A → Type κ) (m : Option A) (a : A) → m ≡ some a → P a → Every P m
Every-some P none a e p = tt
Every-some P (some b) a e p = subst P (cc) p

pub Every-then {ℓ κ} :
    {A B : Type ℓ} (Q : B → Type κ) (m : Option A) (f : A → Option B)
    → ((a : A) → Every Q (f a))
    → Every Q (m >>= f)
Every-then Q none f step = tt
Every-then Q (some a) f step = step a

-- Both branches of a test.
pub Every-if {ℓ κ} :
    {A : Type ℓ} (Q : A → Type κ) (b : Bool) (x y : Option A)
    → Every Q x
    → Every Q y
    → Every Q (if b then x else y)
Every-if Q true x y p q = p
Every-if Q false x y p q = q

pub Every-elim {ℓ κ} :
    {A : Type ℓ} (P : A → Type κ) (m : Option A) (a : A) → Every P m → m ≡ some a → P a
Every-elim P none a p e = absurd (cc (e))
Every-elim P (some b) a p e = subst P (cc) p

-- A computation that does not fail.
abbrev pub Returns {ℓ} : {A : Type ℓ} → Option A → Type ℓ
Returns {A = A} m = (a : A) × (m ≡ some a)

pub Returns-then {ℓ} :
    {A B : Type ℓ} (m : Option A) (f : A → Option B) (a : A)
    → m ≡ some a
    → Returns (f a)
    → Returns (m >>= f)
Returns-then m f a e r = subst (λ n. Returns (n >>= f)) (sym e) r

pub Every-mono {ℓ κ} :
    {A : Type ℓ} (P Q : A → Type κ) (m : Option A) → Every P m → ((a : A) → P a → Q a) → Every Q m
Every-mono P Q none p step = tt
Every-mono P Q (some a) p step = step a p

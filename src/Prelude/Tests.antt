-- ===== src/Prelude/Tests.antt =====
-- Boolean tests on the native numbers, the conditional, and case splits that keep the equation.
use Prim.Native.Nat.{ℕ, compare, Ordering}
use mathlib.Core.Path.{subst, ◌≡◌, refl}
use mathlib.Core.Logic.{◌⊎◌, inl, inr}
use mathlib.Core.Bool.{Bool, true, false}
use mathlib.Core.Option.{Option, none, some, none-ne-some, some-injective}

abbrev pub ltb : ℕ → ℕ → Bool
ltb a b = elim (compare a b) [ Ordering.lt ↦ true | _ ↦ false ]

abbrev pub leb : ℕ → ℕ → Bool
leb a b = elim (compare a b) [ Ordering.gt ↦ false | _ ↦ true ]

infix 50 ◌==◌
abbrev pub ◌==◌ : ℕ → ℕ → Bool
a == b = elim (compare a b) [ Ordering.eq ↦ true | _ ↦ false ]

infix 1 if◌then◌else◌
abbrev pub if◌then◌else◌ {ℓ} : {A : Type ℓ} → Bool → A → A → A
if true then x else y = x
if false then x else y = y

pub Bool-cases : (b : Bool) → (b ≡ true) ⊎ (b ≡ false)
Bool-cases true = inl refl
Bool-cases false = inr refl

pub Option-cases {ℓ} : {A : Type ℓ} (o : Option A) → (o ≡ none) ⊎ ((a : A) × (o ≡ some a))
Option-cases none = inl refl
Option-cases (some a) = inr (a, refl)

-- `has_value` of a std::optional.
abbrev pub has_value {ℓ} : {A : Type ℓ} → Option A → Bool
has_value none = false
has_value (some _) = true

-- Chains of calls that may throw.
infixl 5 ◌>>=◌
abbrev pub ◌>>=◌ {ℓ κ} : {A : Type ℓ} {B : Type κ} → Option A → (A → Option B) → Option B
none >>= f = none
some a >>= f = f a

-- A chain that gives a result: what each of its steps gave.
pub some_of_bind {ℓ κ} :
    {A : Type ℓ} {B : Type κ} (o : Option A) (f : A → Option B) (b : B)
    → o >>= f ≡ some b
    → (a : A) × (o ≡ some a) × (f a ≡ some b)
some_of_bind (some a) f b h = (a, refl, h)
some_of_bind none f b h = absurd (none-ne-some b h)

-- Whatever a chain gives satisfies `P`.
unfoldable pub Gives {ℓ κ} : {A : Type ℓ} → (A → Type κ) → Option A → Type (ℓ ⊔ κ)
Gives {A = A} P o = (a : A) → o ≡ some a → P a

pub some-Gives {ℓ κ} : {A : Type ℓ} (P : A → Type κ) (a : A) → P a → Gives P (some a)
unfolding Gives
some-Gives P a p b h = subst P (some-injective a b h) p

pub bind-Gives {ℓ κ μ} :
    {A : Type ℓ} {B : Type κ} (P : B → Type μ) (o : Option A) (f : A → Option B)
    → ((a : A) → Gives P (f a))
    → Gives P (o >>= f)
unfolding Gives
bind-Gives P (some a) f h b e = h a b e
bind-Gives P none f h b e = absurd (none-ne-some b e)

pub Gives-some {ℓ κ} :
    {A : Type ℓ} (P : A → Type κ) (o : Option A) (a : A) → Gives P o → o ≡ some a → P a
unfolding Gives
Gives-some P o a h = h a

pub if-Gives {ℓ κ} :
    {A : Type ℓ} (P : A → Type κ) (b : Bool) (x y : Option A)
    → Gives P x
    → Gives P y
    → Gives P (if b then x else y)
if-Gives P true x y h k = h
if-Gives P false x y h k = k

pub map-Gives {ℓ κ μ} :
    {A : Type ℓ} (P : A → Type κ) (Q : A → Type μ) (o : Option A)
    → ((a : A) → P a → Q a)
    → Gives P o
    → Gives Q o
unfolding Gives
map-Gives P Q o h k a e = h a (k a e)

-- A step that is known to give `Q` passes it on to the rest.
pub chain-Gives {ℓ κ μ ν} :
    {A : Type ℓ} {B : Type κ} (Q : A → Type ν) (P : B → Type μ) (o : Option A) (f : A → Option B)
    → Gives Q o
    → ((a : A) → Q a → Gives P (f a))
    → Gives P (o >>= f)
unfolding Gives
chain-Gives Q P (some a) f q h b e = h a (q a refl) b e
chain-Gives Q P none f q h b e = absurd (none-ne-some b e)

-- With what the test or the step gave.
pub test-Gives {ℓ κ} :
    {A : Type ℓ} (P : A → Type κ) (b : Bool) (x y : Option A)
    → (b ≡ true → Gives P x)
    → (b ≡ false → Gives P y)
    → Gives P (if b then x else y)
test-Gives P true x y h k = h refl
test-Gives P false x y h k = k refl

pub step-Gives {ℓ κ μ} :
    {A : Type ℓ} {B : Type κ} (P : B → Type μ) (o : Option A) (f : A → Option B)
    → ((a : A) → o ≡ some a → Gives P (f a))
    → Gives P (o >>= f)
unfolding Gives
step-Gives P (some a) f h b e = h a refl b e
step-Gives P none f h b e = absurd (none-ne-some b e)

pub none-Gives {ℓ κ} : {A : Type ℓ} (P : A → Type κ) → Gives P none
unfolding Gives
none-Gives P b h = absurd (none-ne-some b h)

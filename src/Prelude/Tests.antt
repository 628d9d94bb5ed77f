-- ===== src/Prelude/Tests.antt =====
-- Boolean tests on the native numbers, the conditional, and the case lemmas.
use Prim.Native.Nat.{ℕ, zero, suc, ◌≤◌, ◌<◌, compare, Ordering}
use mathlib.Core.Path.{◌≡◌, refl, sym, ap, subst}
use mathlib.Core.Logic.{◌↔◌, ◌⊎◌, inl, inr}
use mathlib.Core.Bool.{Bool, true, false, ◌&&◌}
use mathlib.Core.Option.{Option, none, some}
use native.Mathlib.Omega.{arith}

abbrev pub ltb : ℕ → ℕ → Bool
ltb a b = elim (compare a b) [ Ordering.lt ↦ true | _ ↦ false ]

abbrev pub leb : ℕ → ℕ → Bool
leb a b = elim (compare a b) [ Ordering.gt ↦ false | _ ↦ true ]

infix 50 ◌==◌
abbrev pub ◌==◌ : ℕ → ℕ → Bool
a == b = elim (compare a b) [ Ordering.eq ↦ true | _ ↦ false ]

infix 1 if◌then◌else◌
abbrev pub if◌then◌else◌ {ℓ} : {A : Type ℓ} → Bool → A → A → A
if true then x else y = x
if false then x else y = y

pub ltb→lt : (a b : ℕ) → ltb a b ≡ true → a < b
ltb→lt a b h = ground arith

pub lt→ltb : (a b : ℕ) → a < b → ltb a b ≡ true
lt→ltb a b h = ground arith

pub leb→le : (a b : ℕ) → leb a b ≡ true → a ≤ b
leb→le a b h = ground arith

pub ==_iff : (a b : ℕ) → ((a == b) ≡ true) ↔ (a ≡ b)
==_iff a b = ground arith

-- To split on a computed value and keep the equation.
pub Bool-cases : (b : Bool) → (b ≡ true) ⊎ (b ≡ false)
Bool-cases true = inl refl
Bool-cases false = inr refl

pub Option-cases {ℓ} : {A : Type ℓ} (o : Option A) → (o ≡ none) ⊎ ((a : A) × (o ≡ some a))
Option-cases none = inl refl
Option-cases (some a) = inr (a, refl)

-- A chain of steps that may fail.
infixl 5 ◌>>=◌
abbrev pub ◌>>=◌ {ℓ κ} : {A : Type ℓ} {B : Type κ} → Option A → (A → Option B) → Option B
none >>= f = none
some a >>= f = f a

-- To prove a property of a branching term, one branch at a time.
pub if-rule {ℓ κ} :
    {A : Type ℓ} (P : A → Type κ) (b : Bool) {x y : A}
    → ((b ≡ true) → P x)
    → ((b ≡ false) → P y)
    → P (if b then x else y)
if-rule P true h k = h refl
if-rule P false h k = k refl

pub elim-rule {ℓ κ ι} :
    {A : Type ℓ} {B : Type κ} (P : B → Type ι) (o : Option A) {x : B} {f : A → B}
    → ((o ≡ none) → P x)
    → ((a : A) → (o ≡ some a) → P (f a))
    → P (elim o [ none ↦ x | some a ↦ f a ])
elim-rule P none h k = h refl
elim-rule P (some a) h k = k a refl

pub >>=-rule {ℓ κ ι} :
    {A : Type ℓ} {B : Type κ} (P : Option B → Type ι) (o : Option A) (f : A → Option B) (a : A)
    → o ≡ some a
    → P (f a)
    → P (o >>= f)
>>=-rule P o f a e h = subst (λ o'. P (o' >>= f)) (sym e) h

pub >>=-cases {ℓ κ ι} :
    {A : Type ℓ} {B : Type κ} (P : Option B → Type ι) (o : Option A) (f : A → Option B)
    → ((o ≡ none) → P none)
    → ((a : A) → (o ≡ some a) → P (f a))
    → P (o >>= f)
>>=-cases P none f h k = h refl
>>=-cases P (some a) f h k = k a refl

pub >>=-some {ℓ} : {A : Type ℓ} (o : Option A) → (o >>= λ a. some a) ≡ o
>>=-some none = refl
>>=-some (some a) = refl

-- A chain has a result only by results of its steps.
pub >>=-inverse {ℓ κ} :
    {A : Type ℓ} {B : Type κ} (o : Option A) (f : A → Option B) (b : B)
    → (o >>= f) ≡ some b
    → (a : A) × (o ≡ some a) × (f a ≡ some b)
>>=-inverse none f b h = ground arith
>>=-inverse (some a) f b h = (a, refl, h)

pub some_injective {ℓ} : {A : Type ℓ} {a b : A} → some a ≡ some b → a ≡ b
some_injective {a = a} h = ap (λ o. elim o [ none ↦ a | some x ↦ x ]) h

pub elim-some {ℓ κ ι} :
    {A : Type ℓ} {B : Type κ} (P : B → Type ι) (o : Option A) (x : B) (f : A → B) (a : A)
    → o ≡ some a
    → P (f a)
    → P (elim o [ none ↦ x | some b ↦ f b ])
elim-some P o x f a e h = subst (λ o'. P (elim o' [ none ↦ x | some b ↦ f b ])) (sym e) h

-- A test of each number under a bound, by evaluation.
unfoldable pub every_below : (ℕ → Bool) → ℕ → Bool
every_below test zero = true
every_below test (suc bound) = every_below test bound && test bound

pub every_below-at :
    (test : ℕ → Bool) (bound n : ℕ) → n < bound → every_below test bound ≡ true → test n ≡ true
unfolding every_below
every_below-at test zero n under passed = elim under [ ]
every_below-at test (suc bound) n under passed = ground (arith, every_below-at test bound n)

pub ltb→le : (a b : ℕ) → ltb a b ≡ false → b ≤ a
ltb→le a b h = ground arith

pub none-ne-some {ℓ κ} : {A : Type ℓ} {B : Type κ} {a : A} → none ≡ some a → B
none-ne-some h = absurd (cc)

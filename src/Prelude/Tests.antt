-- ===== src/Prelude/Tests.antt =====
-- Boolean tests on the native numbers, the conditional, and case splits that keep an equation.
use Prim.Native.Nat.{ℕ, ◌≤◌, ◌<◌, compare, Ordering}
use mathlib.Core.Path.{◌≡◌, refl}
use mathlib.Core.Logic.{◌↔◌, ◌⊎◌, inl, inr}
use mathlib.Core.Bool.{Bool, true, false, ◌&&◌}
use mathlib.Core.Option.{Option, none, some}
use native.Mathlib.Omega.{arith}

abbrev pub ltb : ℕ → ℕ → Bool
ltb a b = elim (compare a b) [ Ordering.lt ↦ true | _ ↦ false ]

abbrev pub leb : ℕ → ℕ → Bool
leb a b = elim (compare a b) [ Ordering.gt ↦ false | _ ↦ true ]

infix 50 ◌==◌
abbrev pub ◌==◌ : ℕ → ℕ → Bool
a == b = elim (compare a b) [ Ordering.eq ↦ true | _ ↦ false ]

infix 1 if◌then◌else◌
abbrev pub if◌then◌else◌ {ℓ} : {A : Type ℓ} → Bool → A → A → A
if true then x else y = x
if false then x else y = y

pub ==_iff : (a b : ℕ) → ((a == b) ≡ true) ↔ (a ≡ b)
==_iff a b = ground arith

pub lt→neq : (a b : ℕ) → a < b → (a == b) ≡ false
lt→neq a b h = ground (arith, h)

pub leb→le : (a b : ℕ) → leb a b ≡ true → a ≤ b
leb→le a b h = ground arith

pub Bool-cases : (b : Bool) → (b ≡ true) ⊎ (b ≡ false)
Bool-cases true = inl refl
Bool-cases false = inr refl

pub Option-cases {ℓ} : {A : Type ℓ} (o : Option A) → (o ≡ none) ⊎ ((a : A) × (o ≡ some a))
Option-cases none = inl refl
Option-cases (some a) = inr (a, refl)

-- What both branches have; a test that is made twice has one outcome.
pub if_any {ℓ κ} :
    {A : Type ℓ} (P : A → Type κ) (b : Bool) (x y : A) → P x → P y → P (if b then x else y)
if_any P true x y p q = p
if_any P false x y p q = q

pub if_twice {ℓ κ} :
    {A : Type ℓ} (P : A → Type κ) (b : Bool) (x y z : A)
    → P x
    → P z
    → P (if b then x else if b then y else z)
if_twice P true x y z p q = p
if_twice P false x y z p q = q

-- Both halves of a conjunction that holds.
pub and_parts : (a b : Bool) → (a && b) ≡ true → (a ≡ true) × (b ≡ true)
and_parts a b h = ground arith

-- What two guards that gave a result establish.
pub guarded {ℓ} :
    {A : Type ℓ} (stop go : Bool) (x y : A)
    → (if stop then none else if go then some x else none) ≡ some y
    → (stop ≡ false) × (go ≡ true) × (x ≡ y)
guarded true go x y h = cc
guarded false true x y h = (refl, refl, cc)
guarded false false x y h = cc

-- A chain of steps that may fail, and a step that fails unless a test passes.
infixl 5 ◌>>=◌ ◌>>◌
abbrev pub ◌>>=◌ {ℓ κ} : {A : Type ℓ} {B : Type κ} → Option A → (A → Option B) → Option B
none >>= f = none
some a >>= f = f a

abbrev pub ◌>>◌ {ℓ} : {B : Type ℓ} → Option (Unit {0}) → Option B → Option B
m >> k = m >>= λ _. k

abbrev pub require : Bool → Option (Unit {0})
require true = some tt
require false = none

-- A chain that gave a result has gone through its first step.
pub bind_parts {ℓ κ} :
    {A : Type ℓ} {B : Type κ} (o : Option A) (f : A → Option B) (b : B)
    → (o >>= f) ≡ some b
    → (a : A) × (o ≡ some a) × (f a ≡ some b)
bind_parts none f b h = cc
bind_parts (some a) f b h = (a, refl, h)

pub require_parts {κ} :
    {B : Type κ} (t : Bool) (o : Option B) (b : B)
    → (require t >> o) ≡ some b
    → (t ≡ true) × (o ≡ some b)
require_parts true o b h = (refl, h)
require_parts false o b h = cc

pub some_injective {ℓ} : {A : Type ℓ} (x y : A) → some x ≡ some y → x ≡ y
some_injective x y h = cc

-- What a result under one test establishes.
pub if_some_parts {ℓ} :
    {A : Type ℓ} (b : Bool) (x y : A) → (if b then some x else none) ≡ some y → (b ≡ true) × (x ≡ y)
if_some_parts true x y h = (refl, some_injective x y h)
if_some_parts false x y h = cc

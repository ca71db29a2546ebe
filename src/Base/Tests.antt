-- ===== src/Base/Tests.antt =====
-- Boolean tests, the conditional, Go's `error` results and their sequencing.
use Prim.Native.Nat.{ℕ, ◌≤◌, ◌<◌, compare, Ordering}
use Prim.Native.String.{String}
use mathlib.Core.Path.{◌≡◌, refl}
use mathlib.Core.Logic.{◌⊎◌, inl, inr}
use mathlib.Core.Bool.{Bool, true, false}
use mathlib.Core.Option.{Option, none, some}
use native.Mathlib.Omega.{arith}
use text.Mathlib.Text.{◌==◌ as str_eq}

abbrev pub ltb : ℕ → ℕ → Bool
ltb a b = elim (compare a b) [ Ordering.lt ↦ true | _ ↦ false ]

abbrev pub leb : ℕ → ℕ → Bool
leb a b = elim (compare a b) [ Ordering.gt ↦ false | _ ↦ true ]

-- `==` is the equality of texts; numbers are compared by `eqb`.
infix 50 ◌==◌
abbrev pub ◌==◌ : String → String → Bool
a == b = str_eq a b

abbrev pub eqb : ℕ → ℕ → Bool
eqb a b = elim (compare a b) [ Ordering.eq ↦ true | _ ↦ false ]

infix 1 if◌then◌else◌
abbrev pub if◌then◌else◌ {ℓ} : {A : Type ℓ} → Bool → A → A → A
if true then x else y = x
if false then x else y = y

pub leb→le : (a b : ℕ) → leb a b ≡ true → a ≤ b
leb→le a b h = ground arith

pub ltb→lt : (a b : ℕ) → ltb a b ≡ true → a < b
ltb→lt a b h = ground arith

-- A property of a choice holds where it holds of each branch, under its test.
pub if_cases {ℓ κ} :
    {A : Type ℓ} (P : A → Type κ) (b : Bool) (x y : A)
    → (b ≡ true → P x)
    → (b ≡ false → P y)
    → P (if b then x else y)
if_cases P true x y p q = p refl
if_cases P false x y p q = q refl

pub Bool-cases : (b : Bool) → (b ≡ true) ⊎ (b ≡ false)
Bool-cases true = inl refl
Bool-cases false = inr refl

pub Option-cases {ℓ} : {A : Type ℓ} (o : Option A) → (o ≡ none) ⊎ ((a : A) × (o ≡ some a))
Option-cases none = inl refl
Option-cases (some a) = inr (a, refl)

-- A Go pair `(A, error)`: `err` carries the text of the error.
pub data Result {ℓ} (A : Type ℓ) : Type ℓ where
  ok : A → Result A
  err : String → Result A

-- `v, e := call(); if e != nil { return e }`
infixl 5 ◌>>=◌
abbrev pub ◌>>=◌ {ℓ κ} :
    {From : Type ℓ} {To : Type κ} → Result From → (From → Result To) → Result To
◌>>=◌ (err message) rest = err message
◌>>=◌ (ok value) rest = rest value

-- `if e := call(); e != nil { return e }`
infixl 5 ◌>>◌
abbrev pub ◌>>◌ {ℓ} : {To : Type ℓ} → Result (Unit {0}) → Result To → Result To
◌>>◌ first rest = first >>= λ done. rest

-- `if cond { return errors.New(message) }`
abbrev pub refuse : Bool → String → Result (Unit {0})
refuse true e = err e
refuse false e = ok tt

abbrev pub is_ok {ℓ} : {A : Type ℓ} → Result A → Bool
is_ok (ok a) = true
is_ok (err e) = false

pub ok-injective {ℓ} : {A : Type ℓ} {a b : A} → Result.ok a ≡ ok b → a ≡ b
ok-injective e = cc

pub Result-cases {ℓ} :
    {A : Type ℓ} (r : Result A) → ((a : A) × (r ≡ ok a)) ⊎ ((e : String) × (r ≡ err e))
Result-cases (ok a) = inl (a, refl)
Result-cases (err e) = inr (e, refl)

-- A call that was passed, and the code behind it.
pub >>=-eq-ok {ℓ κ} :
    {From : Type ℓ} {To : Type κ} (call : Result From) (rest : From → Result To) {done : To}
    → (call >>= rest) ≡ ok done
    → (value : From) × (call ≡ ok value) × (rest value ≡ ok done)
>>=-eq-ok (err message) rest same = cc
>>=-eq-ok (ok value) rest same = (value, refl, same)

pub >>-eq-ok {ℓ} :
    {B : Type ℓ} (m : Result (Unit {0})) (k : Result B) {b : B}
    → (m >> k) ≡ ok b
    → (m ≡ ok tt) × (k ≡ ok b)
>>-eq-ok (ok a) k h = (refl, h)
>>-eq-ok (err e) k h = cc

pub refuse-eq-ok : (b : Bool) (e : String) → refuse b e ≡ ok tt → b ≡ false
refuse-eq-ok b e h = ground arith

-- A guard that was passed, and the code behind it.
pub refuse->>-eq-ok {ℓ} :
    {B : Type ℓ} (b : Bool) (e : String) (k : Result B) {r : B}
    → (refuse b e >> k) ≡ ok r
    → (b ≡ false) × (k ≡ ok r)
refuse->>-eq-ok true e k h = cc
refuse->>-eq-ok false e k h = (refl, h)

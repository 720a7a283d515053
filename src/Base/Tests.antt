-- ===== src/Base/Tests.antt =====
-- Boolean tests, the conditional, and JavaScript's truthiness and SQL's comparison of nullable texts.
use Prim.Native.Nat.{ℕ, compare, Ordering}
use Prim.Native.String
use Prim.Native.String.{String}
use mathlib.Core.Path.{◌≡◌, refl, ap}
use mathlib.Core.Logic.{◌⊎◌, inl, inr}
use mathlib.Core.Bool.{Bool, true, false, not}
use mathlib.Core.Option.{Option, none, some}
use native.Mathlib.Omega.{arith}
use text.Mathlib.Text.{◌==◌}
use text.Mathlib.TextEquality.{eq_iff}

abbrev pub ltb : ℕ → ℕ → Bool
ltb a b = elim (compare a b) [ Ordering.lt ↦ true | _ ↦ false ]

abbrev pub leb : ℕ → ℕ → Bool
leb a b = elim (compare a b) [ Ordering.gt ↦ false | _ ↦ true ]

abbrev pub num_eq : ℕ → ℕ → Bool
num_eq a b = elim (compare a b) [ Ordering.eq ↦ true | _ ↦ false ]

infix 1 if◌then◌else◌
abbrev pub if◌then◌else◌ {ℓ} : {A : Type ℓ} → Bool → A → A → A
if true then x else y = x
if false then x else y = y

pub Bool-cases : (b : Bool) → (b ≡ true) ⊎ (b ≡ false)
Bool-cases true = inl refl
Bool-cases false = inr refl

pub Option-cases {ℓ} : {A : Type ℓ} (o : Option A) → (o ≡ none) ⊎ ((a : A) × (o ≡ some a))
Option-cases none = inl refl
Option-cases (some a) = inr (a, refl)

pub some-injective : {A : Type 0} {a b : A} → some a ≡ some b → a ≡ b
some-injective {A} {a} e =
    let got : Option A → A = λ o. elim o [ none ↦ a | some x ↦ x ] in ap got e

-- `!x` and `if (x)` at a value that is a text or null: the empty text counts as null.
abbrev pub truthy : Option String → Bool
truthy none = false
truthy (some s) = not (s == "")

-- SQL's `column = ?`: NULL equals nothing.
abbrev pub column_is : Option String → String → Bool
column_is none s = false
column_is (some t) s = t == s

-- SQL's `column IS NULL`, also `=== null`.
abbrev pub is_null {ℓ} : {A : Type ℓ} → Option A → Bool
is_null none = true
is_null (some _) = false

-- `x ?? y`
abbrev pub coalesce {ℓ} : {A : Type ℓ} → Option A → A → A
coalesce none d = d
coalesce (some a) d = a

-- `x ?? y` where `y` may be null too
abbrev pub or_else {ℓ} : {A : Type ℓ} → Option A → Option A → Option A
or_else none o = o
or_else (some a) o = some a

pub column_is-some : (o : Option String) (s : String) → column_is o s ≡ true → o ≡ some s
column_is-some none s h = cc
column_is-some (some t) s h = ground (arith, eq_iff t s)

-- `${a}:${b}`
unfoldable pub namespaced : String → String → String
namespaced a b = String.◌++◌ a (String.◌++◌ ":" b)

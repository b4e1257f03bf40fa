-- ===== src/Base/Results.antt =====
-- What a call returns, and how calls follow one another.
use mathlib.Core.Path.{◌≡◌, refl, ap}
use mathlib.Core.Bool.{Bool, true, false}
use mathlib.Core.Logic.{◌⊎◌, inl, inr}
use native.Mathlib.Omega.{arith}
use flax.Base.Tests.{if◌then◌else◌}

-- What a call returns, if it does: `bug` is `BUG()`, a failed assertion or a NULL that is read
-- through, and `hang` a call that does not return.
pub data Result {ℓ} (A : Type ℓ) : Type ℓ where
  bug hang : Result A
  ok : A → Result A

infixl 5 ◌>>=◌
abbrev pub ◌>>=◌ {ℓ} : {A B : Type ℓ} (call : Result A) (rest : A → Result B) → Result B
bug >>= rest = bug
hang >>= rest = hang
ok x >>= rest = rest x

-- `NVMEV_ASSERT` and `BUG_ON`, before what follows them.
abbrev pub assert {ℓ} : {A : Type ℓ} → Bool → Result A → Result A
assert true r = r
assert false r = bug

-- A chain that returns has passed each of its calls.
pub >>=-ok :
    {A B : Type 0} (call : Result A) (rest : A → Result B) {y : B}
    → (call >>= rest) ≡ ok y
    → (x : A) × (call ≡ ok x) × (rest x ≡ ok y)
>>=-ok bug rest e = absurd (ground arith)
>>=-ok hang rest e = absurd (ground arith)
>>=-ok (ok x) rest e = (x, refl, e)

pub assert-ok :
    {A : Type 0} (c : Bool) (r : Result A) {a : A} → assert c r ≡ ok a → (c ≡ true) × (r ≡ ok a)
assert-ok true r e = (refl, e)
assert-ok false r e = absurd (ground arith)

pub ok-inj : {A : Type 0} {a b : A} → ok a ≡ ok b → a ≡ b
ok-inj {a} e = ap (λ r. elim r [ ok x ↦ x | bug ↦ a | hang ↦ a ]) e

pub if-eq :
    {A : Type 0} (c : Bool) (x y : A) {z : A}
    → (if c then x else y) ≡ z
    → ((c ≡ true) × (x ≡ z)) ⊎ ((c ≡ false) × (y ≡ z))
if-eq true x y e = inl (refl, e)
if-eq false x y e = inr (refl, e)

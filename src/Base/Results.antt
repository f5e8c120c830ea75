-- ===== src/Base/Results.antt =====
-- The outcome of fallible code. `fault` is no value of the program: it marks a panic (a failed
-- assertion, an index out of range) or a loop that ran out of the model's fuel.
use mathlib.Core.Path.{◌≡◌, refl, subst}
use mathlib.Core.Logic.{◌≢◌}
use mathlib.Core.Bool.{Bool, true, false}
use mathlib.Core.List.{List}
use Prim.Native.Nat.{ℕ}
use open_boot.Base.Lists.{length}
use open_boot.Base.Tests.{leb, ◌==◌, if◌then◌else◌}

pub data Result (E A : Type 0) : Type 0 where
  fault : Result E A
  err : E → Result E A
  ok : A → Result E A

-- `if b { bail!(why) }`.
abbrev pub bail_if : {E : Type 0} → Bool → E → Result E (Unit {0})
bail_if false why = ok tt
bail_if true why = err why

-- The operator `?`: the next step runs on a value only.
infixl 5 ◌>>=◌ ◌>>◌
abbrev pub ◌>>=◌ : {E A B : Type 0} → Result E A → (A → Result E B) → Result E B
fault >>= next = fault
err why >>= next = err why
ok x >>= next = next x

abbrev pub ◌>>◌ : {E B : Type 0} → Result E (Unit {0}) → Result E B → Result E B
first >> second = first >>= λ _. second

-- Indexing and slicing `xs` up to n: out of range it panics.
abbrev pub within : {E A B : Type 0} → ℕ → List A → Result E B → Result E B
within n xs next = if leb n (length xs) then next else fault

-- A division by n panics where n is 0.
abbrev pub nonzero : {E : Type 0} → ℕ → Result E (Unit {0})
nonzero n = if n == 0 then fault else ok tt

-- `.map_err(f)`.
abbrev pub map_err : {E F A : Type 0} → (E → F) → Result E A → Result F A
map_err f (ok a) = ok a
map_err f (err e) = err (f e)
map_err f fault = fault

-- Inversion of a successful bind.
pub >>=-eq-ok :
    {E A B : Type 0} (r : Result E A) (next : A → Result E B) {v : B}
    → (r >>= next) ≡ ok v
    → (x : A) × (r ≡ ok x) × (next x ≡ ok v)
>>=-eq-ok fault next eq = cc
>>=-eq-ok (err why) next eq = cc
>>=-eq-ok (ok x) next eq = (x, refl, eq)

-- The code neither panics nor runs out of fuel, and a value that it gives satisfies P.
pub data Returns {E A : Type 0} (P : A → Type 0) : Result E A → Type 0 where
  gives : {a : A} → P a → Returns P (ok a)
  fails : {e : E} → Returns P (err e)

pub Returns-bind :
    {E A B : Type 0} {Q : A → Type 0} {P : B → Type 0} {m : Result E A} {f : A → Result E B}
    → Returns Q m
    → ((a : A) → Q a → Returns P (f a))
    → Returns P (m >>= f)
Returns-bind (gives {a = a} q) k = k a q
Returns-bind fails k = fails

pub Returns-inv :
    {E A : Type 0} {P : A → Type 0} {r : Result E A}
    → Returns P r
    → (r ≢ fault) × ((a : A) → r ≡ ok a → P a)
Returns-inv {P = P} (gives {a = a} p) = ((λ e. cc), λ b e. subst P (cc) p)
Returns-inv fails = ((λ e. cc), λ b e. cc)

-- A test that fails with an error hands its negation on.
pub Returns-bail_if : {E : Type 0} (b : Bool) (e : E) → Returns (λ _. b ≡ false) (bail_if b e)
Returns-bail_if true e = fails
Returns-bail_if false e = gives refl

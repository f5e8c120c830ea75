-- ===== src/Base/Actions.antt =====
-- Stateful code that may fail: the state comes back after a failure too.
use mathlib.Core.Path.{◌≡◌, refl, ap, sym, ◌∙◌}
use mathlib.Core.Logic.{◌≢◌, ◌⊎◌, inl, inr}
use open_boot.Base.Results.{Result, ok, err, fault}

abbrev pub Action : Type 0 → Type 0 → Type 0 → Type 0
Action S E A = S → Result E A × S

abbrev pub pure : {S E A : Type 0} → A → Action S E A
pure a s = (ok a, s)

abbrev pub raise : {S E A : Type 0} → E → Action S E A
raise e s = (err e, s)

-- A computation without effect.
abbrev pub lift : {S E A : Type 0} → Result E A → Action S E A
lift r s = (r, s)

abbrev pub and_then : {S E A B : Type 0} → (A → Action S E B) → Result E A → S → Result E B × S
and_then f (ok a) s = f a s
and_then f (err e) s = (err e, s)
and_then f fault s = (fault, s)

infixl 5 ◌>>=◌ ◌>>◌
abbrev pub ◌>>=◌ : {S E A B : Type 0} → Action S E A → (A → Action S E B) → Action S E B
◌>>=◌ m f s = and_then f (m s).0 (m s).1

abbrev pub ◌>>◌ : {S E A B : Type 0} → Action S E A → Action S E B → Action S E B
m >> k = m >>= λ _. k

-- A bind goes on with the value of its first part, or it ends where that part ended.
pub >>=-cases :
    {S E A B : Type 0} (m : Action S E A) (f : A → Action S E B) (s : S)
    → ((a : A) × ((m s).0 ≡ ok a) × ((m >>= f) s ≡ f a (m s).1))
      ⊎ ((((m >>= f) s).1 ≡ (m s).1) × ((b : B) → ((m >>= f) s).0 ≢ ok b))
>>=-cases {S} {E} {A} {B} m f s = cases (m s).0 (m s).1
  where
    cases :
        (r : Result E A) (t : S)
        → ((a : A) × (r ≡ ok a) × (and_then f r t ≡ f a t))
          ⊎ (((and_then f r t).1 ≡ t) × ((b : B) → (and_then f r t).0 ≢ ok b))
    cases (ok a) t = inl (a, refl, refl)
    cases (err e) t = inr (refl, λ b x. cc)
    cases fault t = inr (refl, λ b x. cc)

-- Inversion of a successful bind.
pub >>=-inv :
    {S E A B : Type 0} (m : Action S E A) (f : A → Action S E B) (s : S) (b : B)
    → ((m >>= f) s).0 ≡ ok b
    → (a : A) × ((m s).0 ≡ ok a) × ((f a (m s).1).0 ≡ ok b)
>>=-inv m f s b e = elim (>>=-cases m f s) [
  | inl (a, gives_a, eq) ↦ (a, gives_a, ap (λ r. r.0) (sym eq) ∙ e)
  | inr (state, failed) ↦ absurd (failed b e)
]

-- ===== src/Cli/Numbers.antt =====
-- An image specification splits at its last '@'.
use open_boot.Base.{
  ℕ, ◌≡◌, ◌≢◌, refl, ap, ◌∙◌, [], ◌∷◌, ◌++◌, Option, none, some, inl, inr, ◌↔◌, Bool-cases, All, ok,
  ◌==◌, arith,
}
use open_boot.Text.{Text}
use open_boot.Cli.{rsplit_at, after_split, spec_of, parse_u32, parse_image_spec}

abbrev pub NoAt : Text → Type 0
NoAt text = All (λ c. c ≢ b'@') text

rsplit_none : (base : Text) → NoAt base → rsplit_at base ≡ none
unfolding rsplit_at
rsplit_none [] h = refl
rsplit_none (c ∷ cs) (n, h) = let e = rsplit_none cs h in ground arith

rsplit_some : (path base : Text) → NoAt base → rsplit_at (path ++ (b'@' ∷ base)) ≡ some (path, base)
unfolding rsplit_at
rsplit_some [] base h = let e = rsplit_none base h in ground arith
rsplit_some (c ∷ cs) base h = let e = rsplit_some cs base h in ground arith

-- What `rsplit_at` says of the text.
abbrev Splits : Text → Option (Text × Text) → Type 0
Splits text none = NoAt text
Splits text (some (path, base)) = (text ≡ path ++ (b'@' ∷ base)) × NoAt base

after_split-Splits :
    (c : ℕ) (cs : Text) (o : Option (Text × Text))
    → Splits cs o
    → Splits (c ∷ cs) (after_split c cs o)
after_split-Splits c cs (some (path, base)) (e, h) = (ap (λ t. c ∷ t) e, h)
after_split-Splits c cs none h = elim (Bool-cases (c == b'@')) [
  | inl here ↦ let e : c ≡ b'@' = ground arith in rw here (ap (λ x. x ∷ cs) e, h)
  | inr not_here ↦ let n : c ≢ b'@' = λ e. ground arith in rw not_here (n, h)
]

rsplit_at-Splits : (text : Text) → Splits text (rsplit_at text)
unfolding rsplit_at
rsplit_at-Splits [] = tt
rsplit_at-Splits (c ∷ cs) = after_split-Splits c cs (rsplit_at cs) (rsplit_at-Splits cs)

-- What an image specification says: a path alone, or a path and the address behind its last '@'.
abbrev pub Says : Text → Text → Option ℕ → Type 0
Says spec path none = (path ≡ spec) × NoAt spec
Says spec path (some addr) =
    (path ≢ [])
    × ((base : Text) × (spec ≡ path ++ (b'@' ∷ base))
        × NoAt base
        × (base ≢ [])
        × (parse_u32 base ≡ some addr))

-- `parse_image_spec` accepts a text exactly where it has no '@', as a path, or where it is a path that
-- is not empty, an '@', and a text that is not empty, has no '@' and is read as an address. It gives
-- this path and this address.
pub parse_image_spec_iff :
    (spec path : Text) (base : Option ℕ)
    → (parse_image_spec spec ≡ ok (path, base)) ↔ Says spec path base
unfolding spec_of parse_image_spec
parse_image_spec_iff spec path base =
    (accepted (rsplit_at spec) (rsplit_at-Splits spec) base, read_back base)
  where
    accepted :
        (o : Option (Text × Text))
        → Splits spec o
        → (base : Option ℕ) → spec_of spec o ≡ ok (path, base)
        → Says spec path base
    accepted none h none e = (ground arith, h)
    accepted none h (some addr) e = absurd (ground arith)
    accepted (some ([], b)) (eq, h) base e = absurd (ground arith)
    accepted (some (x ∷ p, [])) (eq, h) base e = absurd (ground arith)
    accepted (some (x ∷ p, y ∷ b)) (eq, h) none e = absurd (ground arith)
    accepted (some (x ∷ p, y ∷ b)) (eq, h) (some addr) e =
        let same : x ∷ p ≡ path = ground arith in
        let reads : parse_u32 (y ∷ b) ≡ some addr = ground arith in
        (λ empty. ground arith, (y ∷ b, eq ∙ ap (λ q. q ++ (b'@' ∷ y ∷ b)) same, h, λ z. cc, reads))

    found :
        (p b : Text) (addr : ℕ)
        → p ≢ []
        → b ≢ []
        → parse_u32 b ≡ some addr
        → spec_of spec (some (p, b)) ≡ ok (p, some addr)
    found [] b addr n m e = absurd (n refl)
    found (x ∷ p) [] addr n m e = absurd (m refl)
    found (x ∷ p) (y ∷ b) addr n m e = ground arith

    read_back : (base : Option ℕ) → Says spec path base → parse_image_spec spec ≡ ok (path, base)
    read_back none (e, h) = let r = rsplit_none spec h in ground arith
    read_back (some addr) (some_path, (base, e, h, some_base, reads)) =
        ap (λ t. spec_of spec (rsplit_at t)) e
        ∙ ap (spec_of spec) (rsplit_some path base h)
        ∙ found path base addr some_path some_base reads

-- ===== src/Hex/Assemble/Bounds.antt =====
-- The accumulator's invariant: what it knows of the lowest and the highest address bounds all its
-- records, and the addresses are 32-bit addresses.
use open_boot.Base.{
  ℕ, ◌+◌, ◌*◌, ◌^◌, ◌≤◌, ◌<◌, ◌≡◌, refl, true, List, [], ◌∷◌, ◌++◌, Option, none, some, ok, Bytes,
  length, ltb, if◌then◌else◌, arith, IsU16, Bool-cases, inl, inr, ltb→le,
}
use open_boot.Hex.Record.{HexRecord, record_data, eof, extended_segment, extended_linear, ignored}
use open_boot.Hex.Assemble.{Accumulator, empty, lower, feed}

-- Every record lies between the two addresses.
unfoldable pub InSpan : ℕ → ℕ → List (ℕ × Bytes) → Type 0
InSpan lo hi [] = Unit
InSpan lo hi ((a, bytes) ∷ rest) = (lo ≤ a) × (a + length bytes ≤ hi) × InSpan lo hi rest

abbrev pub Spans : Option ℕ → ℕ → List (ℕ × Bytes) → Type 0
Spans none hi rs = rs ≡ []
Spans (some m) hi rs = InSpan m hi rs × (m < 2 ^ 32)

pub record IsValid (acc : Accumulator) : Type 0 where
  pub spans : Spans acc.lowest acc.highest acc.records
  pub highest_fits : acc.highest ≤ 2 ^ 32
  pub base_fits : acc.base ≤ 0xffff_0000

-- The numbers in a record that comes from a line fit 16 bits.
abbrev pub InRange : HexRecord → Type 0
InRange (record_data offset bytes) = IsU16 offset
InRange (extended_segment v) = IsU16 v
InRange (extended_linear v) = IsU16 v
InRange eof = Unit
InRange ignored = Unit

pub InSpan-widen :
    (lo hi lo' hi' : ℕ) (rs : List (ℕ × Bytes))
    → lo' ≤ lo
    → hi ≤ hi'
    → InSpan lo hi rs
    → InSpan lo' hi' rs
unfolding InSpan
InSpan-widen lo hi lo' hi' [] p q h = tt
InSpan-widen lo hi lo' hi' ((a, bytes) ∷ rs) p q (low, high, h) =
    (omega arith, omega arith, InSpan-widen lo hi lo' hi' rs p q h)

InSpan-snoc :
    (lo hi a : ℕ) (bytes : Bytes) (rs : List (ℕ × Bytes))
    → InSpan lo hi rs
    → lo ≤ a
    → a + length bytes ≤ hi
    → InSpan lo hi (rs ++ ((a, bytes) ∷ []))
unfolding InSpan
InSpan-snoc lo hi a bytes [] h p q = (p, q, tt)
InSpan-snoc lo hi a bytes ((c, more) ∷ rs) (low, high, h) p q =
    (low, high, InSpan-snoc lo hi a bytes rs h p q)

abbrev raise_to : ℕ → ℕ → ℕ
raise_to hi end = if ltb hi end then end else hi

ltb→le' : (a b : ℕ) → ltb a b ≡ true → a ≤ b
ltb→le' a b h = ground arith

Spans-snoc :
    (lo : Option ℕ) (hi a : ℕ) (bytes : Bytes) (rs : List (ℕ × Bytes))
    → Spans lo hi rs
    → a < 2 ^ 32
    → Spans (lower lo a) (raise_to hi (a + length bytes)) (rs ++ ((a, bytes) ∷ []))
Spans-snoc none hi a bytes rs h fits =
    let top : a + length bytes ≤ raise_to hi (a + length bytes) = ground arith in
    rw h (unfold InSpan in (omega arith, top, tt), fits)
Spans-snoc (some m) hi a bytes rs (h, low) fits =
    let end = raise_to hi (a + length bytes) in
    let above : hi ≤ end = ground arith in
    let top : a + length bytes ≤ end = ground arith in
    elim (Bool-cases (ltb a m)) [
      | inl e ↦ rw e (
        InSpan-snoc a end a bytes rs (InSpan-widen m hi a end rs (ltb→le' a m e) above h)
            (omega arith) top,
        fits,
      )
      | inr e ↦ rw e (
        InSpan-snoc m end a bytes rs (InSpan-widen m hi m end rs (omega arith) above h)
            (ltb→le a m e) top,
        low,
      )
    ]

pub empty-IsValid : IsValid empty
empty-IsValid = record { spans = refl; highest_fits = omega arith; base_fits = omega arith }

-- Feeding a record whose numbers fit 16 bits to an accumulator that satisfies the invariant gives,
-- where it succeeds, one that satisfies it.
pub feed-IsValid :
    (acc acc' : Accumulator) (rec : HexRecord)
    → IsValid acc
    → InRange rec
    → feed acc rec ≡ ok acc'
    → IsValid acc'
unfolding feed
feed-IsValid acc acc' (record_data offset bytes) v r e =
    let full = acc.base + offset in
    let room : full + length bytes ≤ 2 ^ 32 = ground arith in
    let spans = Spans-snoc acc.lowest acc.highest full bytes acc.records v.spans (omega arith) in
    let top : raise_to acc.highest (full + length bytes) ≤ 2 ^ 32 = ground arith in
    let fed : acc' ≡ record acc {
      records = acc.records ++ ((full, bytes) ∷ []);
      lowest = lower acc.lowest full;
      highest = raise_to acc.highest (full + length bytes);
    } =
      ground arith in
    rw fed (record { spans = spans; highest_fits = top; base_fits = v.base_fits })
feed-IsValid acc acc' (extended_segment x) v r e =
    let fed : acc' ≡ record acc { base = x * 2 ^ 4 } = cc in
    rw fed (record { spans = v.spans; highest_fits = v.highest_fits; base_fits = omega arith })
feed-IsValid acc acc' (extended_linear x) v r e =
    let fed : acc' ≡ record acc { base = x * 2 ^ 16 } = cc in
    rw fed (record { spans = v.spans; highest_fits = v.highest_fits; base_fits = omega arith })
feed-IsValid acc acc' eof v r e =
    let fed : acc' ≡ record acc { saw_eof = true } = cc in
    rw fed (record { spans = v.spans; highest_fits = v.highest_fits; base_fits = v.base_fits })
feed-IsValid acc acc' ignored v r e = let fed : acc' ≡ acc = cc in rw fed v

-- ===== src/Hex/Image.antt =====
-- What the assembled image holds: every record's bytes at its addresses, 0xFF between them, and
-- no two records on one address.
mod Placing
pub use Placing.{byte_in, or_else, cover, Disjoint}
use Placing.{place_all-Painted, place_all-Disjoint, place_all-ne-fault}
use open_boot.Base.{
  ℕ, zero, suc, ◌+◌, ◌*◌, ◌-◌, ◌%◌, ◌^◌, ◌≤◌, ◌<◌, ◌≡◌, ◌≢◌, refl, ap, ◌∙◌, get_or, ◌>>=◌,
  >>=-eq-ok, Option-cases, inl, inr, Bool, true, false, ◌&&◌, List, [], ◌∷◌, ◌++◌, Option, none,
  some, Result, ok, err, fault, Bytes, length, get_elem?, set, replicate, length-replicate, ltb,
  leb, ◌==◌, if◌then◌else◌, arith,
}
use open_boot.Hex.Errors.{HexError}
use open_boot.Hex.Assemble.Bounds.{InSpan-widen, InSpan, Spans, IsValid}
use open_boot.Hex.Assemble.{
  Accumulator, Canvas, place, place_all, blank, build, finish, max_image_span,
}

blank_lengths : (n : ℕ) → (length (blank n).img ≡ n) × (length (blank n).used ≡ n)
blank_lengths n = (length-replicate n _, length-replicate n _)

blank_fits :
    (acc : Accumulator) (m : ℕ)
    → IsValid acc
    → acc.lowest ≡ some m
    → InSpan m (m + length (blank (acc.highest - m)).used) acc.records
blank_fits acc m v low =
    let (inside, fits) : Spans (some m) acc.highest acc.records = rw low at v.spans in
    rw length-replicate (
      InSpan-widen m acc.highest m (m + (acc.highest - m)) acc.records (omega arith) (omega arith)
        inside)

module _ (acc : Accumulator) (valid : IsValid acc) where
  -- No index is out of range: assembling what the accumulator holds never panics.
  pub finish-ne-fault : finish acc ≢ fault
  unfolding finish
  finish-ne-fault = from acc.lowest refl
    where
      from : (lo : Option ℕ) → acc.lowest ≡ lo → finish acc ≢ fault
      from none low e = ground arith
      from (some m) low e =
          let span = acc.highest - m in
          let same : length (blank span).img ≡ length (blank span).used =
            omega (arith, blank_lengths span) in
          let safe =
            place_all-ne-fault m acc.records (blank span) same (blank_fits acc m valid low) in
          ground (arith)

-- The byte of a gap is 0xFF.
abbrev pub get_or_gap : Option ℕ → ℕ
get_or_gap none = 0xff
get_or_gap (some b) = b

abbrev canvas_of : Result HexError Canvas → Canvas
canvas_of (ok cv) = cv
canvas_of _ = blank 0

-- What a successful assembly says of the image, at the offset i.
pub record IsImage (rs : List (ℕ × Bytes)) (base : ℕ) (img : Bytes) (i : ℕ) : Type 0 where
  pub small : length img ≤ max_image_span
  pub disjoint : Disjoint rs
  pub at : get_or img i 0xff ≡ get_or_gap (cover rs (base + i))

get_or-get_elem? : (xs : Bytes) (i : ℕ) → get_or xs i 0xff ≡ get_or_gap (get_elem? xs i)
get_or-get_elem? [] i = refl
get_or-get_elem? (x ∷ xs) zero = refl
get_or-get_elem? (x ∷ xs) (suc i) = get_or-get_elem? xs i

gap-replicate : (n i : ℕ) → get_or_gap (get_elem? (replicate n 0xff) i) ≡ 0xff
gap-replicate zero i = refl
gap-replicate (suc n) zero = refl
gap-replicate (suc n) (suc i) = gap-replicate n i

-- For an accumulator that satisfies the invariant and has a lowest address, where `finish`
-- succeeds: the base is that address, not truncated; the image reaches to the highest address, is
-- at most 16 MiB long, and holds at each offset the byte that a record puts at that address, or
-- 0xFF where none does; and no two records share an address.
pub finish-IsImage :
    (acc : Accumulator) (m base : ℕ) (img : Bytes) (i : ℕ)
    → IsValid acc
    → acc.lowest ≡ some m
    → finish acc ≡ ok (base, img)
    → (base ≡ m) × (length img ≡ acc.highest - m) × IsImage acc.records base img i
unfolding finish
finish-IsImage acc m base img i v low e =
    let span = acc.highest - m in
    let start = blank span in
    let same : length start.img ≡ length start.used = omega (arith, blank_lengths span) in
    let cv : Canvas = canvas_of (place_all m acc.records start) in
    let built : (place_all m acc.records start ≡ ok cv)
        × (span ≤ max_image_span)
        × (base ≡ m % 2 ^ 32)
        × (img ≡ cv.img) =
      ground arith in
    let room = blank_fits acc m v low in
    let painted = place_all-Painted m acc.records start cv i same room built.0 in
    let (inside, fits) : Spans (some m) acc.highest acc.records = rw low at v.spans in
    let same_base : base ≡ m = omega arith in
    let len : length img ≡ span = omega (arith, ap length built.3, painted, blank_lengths span) in
    (
      same_base,
      len,
      record {
        small = omega arith;
        disjoint = place_all-Disjoint m acc.records start cv same room built.0;
        at = rw same_base (
            rw built.3 (get_or-get_elem? cv.img i ∙ ground (arith, painted, gap-replicate span i)));
      },
    )

-- With no data record the image is empty.
pub finish-IsImage_empty :
    (acc : Accumulator) (base : ℕ) (img : Bytes) (i : ℕ)
    → IsValid acc
    → acc.lowest ≡ none
    → finish acc ≡ ok (base, img)
    → IsImage acc.records base img i
unfolding finish cover Disjoint
finish-IsImage_empty acc base img i v low e =
    let bare : acc.records ≡ [] = rw low at v.spans in
    let nothing : img ≡ [] = ground arith in
    rw (bare, nothing) (record { small = omega arith; disjoint = tt; at = refl })

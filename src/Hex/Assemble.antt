-- ===== src/Hex/Assemble.antt =====
-- tools/src/hex.rs: `Accumulator`, which places the records, and the gap-filled image.
pub mod Bounds
use open_boot.Base.{
  ℕ, zero, suc, ◌+◌, ◌*◌, ◌-◌, ◌%◌, ◌^◌, ◌≤◌, ◌<◌, Bool, true, false, not, List, [], ◌∷◌, ◌++◌,
  Option, none, some, Result, ok, err, fault, ◌>>=◌, ◌>>◌, bail_if, Bytes, length, get_elem?, set,
  replicate, ltb, if◌then◌else◌,
}
use open_boot.Hex.Errors.{HexError, exceeds_address_space, missing_eof, span_too_large, overlapping}
use open_boot.Hex.Record.{HexRecord, record_data, eof, extended_segment, extended_linear, ignored}

abbrev pub max_image_span : ℕ
max_image_span = 16 * 1024 * 1024

pub record Accumulator : Type 0 where
  pub base : ℕ
  pub records : List (ℕ × Bytes)
  pub lowest : Option ℕ
  pub highest : ℕ
  pub saw_eof : Bool

abbrev pub empty : Accumulator
empty = record { base = 0; records = []; lowest = none; highest = 0; saw_eof = false }

-- `if self.min.is_none_or(|m| full < m) { self.min = Some(full) }`
abbrev pub lower : Option ℕ → ℕ → Option ℕ
lower none full = some full
lower (some m) full = if ltb full m then some full else some m

unfoldable pub feed : Accumulator → HexRecord → Result HexError Accumulator
feed acc (record_data offset bytes) =
    let full = acc.base + offset in
    let end = full + length bytes in
    if ltb (2 ^ 32) end
    then err (exceeds_address_space full)
    else ok (record acc {
      records = acc.records ++ ((full, bytes) ∷ []);
      lowest = lower acc.lowest full;
      highest = if ltb acc.highest end then end else acc.highest;
    })
feed acc eof = ok (record acc { saw_eof = true })
feed acc (extended_segment v) = ok (record acc { base = v * 2 ^ 4 })
feed acc (extended_linear v) = ok (record acc { base = v * 2 ^ 16 })
feed acc ignored = ok acc

-- The image and the marks of the cells that a record has filled.
pub record Canvas : Type 0 where
  pub img : Bytes
  pub used : List Bool

-- The inner loop of `finish`: `off` and `addr` step together. An index out of range is a panic.
unfoldable pub place : ℕ → ℕ → Bytes → Canvas → Result HexError Canvas
place addr off [] cv = ok cv
place addr off (b ∷ bs) cv =
    let rest =
      place (suc addr) (suc off) bs
        (record { img = set cv.img off b; used = set cv.used off true }) in
    elim (get_elem? cv.used off) [
      | none ↦ fault
      | some true ↦ err (overlapping addr)
      | some false ↦ rest
    ]

unfoldable pub place_all : ℕ → List (ℕ × Bytes) → Canvas → Result HexError Canvas
unfolding place
place_all min_a [] cv = ok cv
place_all min_a ((a, bytes) ∷ rest) cv =
    place a (a - min_a) bytes cv >>= λ cv'. place_all min_a rest cv'

abbrev pub blank : ℕ → Canvas
blank span = record { img = replicate span 0xff; used = replicate span false }

-- `finish` from the lowest address on.
unfoldable pub build : Accumulator → ℕ → Result HexError (ℕ × Bytes)
unfolding place_all
build acc min_a =
    let span = acc.highest - min_a in
    if ltb max_image_span span
    then err (span_too_large span)
    else (place_all min_a acc.records (blank span) >>= λ cv. ok (min_a % 2 ^ 32, cv.img))

unfoldable pub finish : Accumulator → Result HexError (ℕ × Bytes)
unfolding build
finish acc =
    if not acc.saw_eof
    then err missing_eof
    else elim acc.lowest [ none ↦ ok (0, []) | some min_a ↦ build acc min_a ]

-- ===== src/Hex/Outcome.antt =====
-- `parse_intel_hex` as a whole: it never panics, and the image is what the records say.
use open_boot.Base.{
  ℕ, ◌+◌, ◌*◌, ◌≡◌, ◌≢◌, refl, Bool, true, false, not, ◌||◌, List, [], ◌∷◌, Option, none, some,
  Result, ok, err, fault, ◌>>=◌, >>=-eq-ok, bail_if, Returns, gives, fails, Returns-bind,
  Returns-inv, Returns-bail_if, Bool-cases, inl, inr, IsU16, ◌%◌, ◌^◌, Bytes, slice, ◌==◌, arith,
}
use open_boot.Hex.Errors.{HexError, Text, bad_eof}
use open_boot.Hex.Record.{
  HexRecord, record_data, eof, extended_segment, extended_linear, ignored, u32_from_hex, hex_pairs,
  hex_to_bytes, extended_value, typed_record, parse_line,
}
use open_boot.Hex.Assemble.{Accumulator, empty, feed, finish}
use open_boot.Hex.Assemble.Bounds.{IsValid, InRange, feed-IsValid, empty-IsValid}
use open_boot.Hex.Image.{IsImage, finish-IsImage, finish-IsImage_empty}
use open_boot.Hex.{feed_line, feed_lines, parse_intel_hex, trim, normalize, split_lines}

Returns-of :
    {A : Type 0} {P : A → Type 0} (r : Result HexError A)
    → r ≢ fault
    → ((a : A) → r ≡ ok a → P a)
    → Returns P r
Returns-of (ok a) h k = gives (k a refl)
Returns-of (err e) h k = fails
Returns-of fault h k = absurd (h refl)

u32_from_hex-ne-fault : (s : Text) → u32_from_hex s ≢ fault
unfolding u32_from_hex
u32_from_hex-ne-fault s e = ground arith

hex_pairs-ne-fault : (s : Text) → hex_pairs s ≢ fault
unfolding hex_pairs
hex_pairs-ne-fault [] e = cc
hex_pairs-ne-fault (c ∷ []) e = cc
hex_pairs-ne-fault (c ∷ d ∷ cs) e = ground (arith, hex_pairs-ne-fault cs)

hex_to_bytes-ne-fault : (s : Text) → hex_to_bytes s ≢ fault
unfolding hex_to_bytes
hex_to_bytes-ne-fault s e = ground (arith, hex_pairs-ne-fault s)

extended_value-IsU16 : (t n : ℕ) (s : Text) → Returns IsU16 (extended_value t n s)
unfolding extended_value
extended_value-IsU16 t n s =
    Returns-of _ (λ e. ground (arith, u32_from_hex-ne-fault s)) (λ v e. ground arith)

eof_record : (b : Bool) (e : HexError) → Returns InRange (bail_if b e >>= λ _. ok eof)
eof_record true e = fails
eof_record false e = gives tt

bytes_record :
    (offset : ℕ) (r : Result HexError Bytes)
    → IsU16 offset
    → r ≢ fault
    → Returns InRange (r >>= λ bytes. ok (record_data offset bytes))
bytes_record offset (ok bytes) h k = gives h
bytes_record offset (err e) h k = fails
bytes_record offset fault h k = absurd (k refl)

typed_record-InRange : (t n addr : ℕ) (s : Text) → Returns InRange (typed_record t n addr s)
unfolding typed_record
typed_record-InRange t n addr s = elim (Bool-cases (t == 0)) [
  | inl e ↦ rw e (bytes_record (addr % 2 ^ 16) _ (omega arith) (hex_to_bytes-ne-fault s))
  | inr e0 ↦ elim (Bool-cases (t == 1)) [
    | inl e ↦ rw (e0, e) (eof_record (not (n == 0) || not (addr == 0)) bad_eof)
    | inr e1 ↦ elim (Bool-cases (t == 2)) [
      | inl e ↦ rw (e0, e1, e) (Returns-bind (extended_value-IsU16 t n s) (λ v h. gives h))
      | inr e2 ↦ elim (Bool-cases (t == 4)) [
        | inl e ↦ rw (e0, e1, e2, e) (Returns-bind (extended_value-IsU16 t n s) (λ v h. gives h))
        | inr e4 ↦ rw (e0, e1, e2, e4) (gives tt)
      ]
    ]
  ]
]

abbrev number_at : Text → ℕ → ℕ → ℕ
number_at line a b = elim (u32_from_hex (slice line a b)) [ ok v ↦ v | err e ↦ 0 | fault ↦ 0 ]

abbrev typed : Text → Result HexError HexRecord
typed line =
    let n = number_at line 1 3 in
    typed_record (number_at line 7 9) n (number_at line 3 7) (slice line 9 (9 + n * 2))

parse_line-typed : (line : Text) (rec : HexRecord) → parse_line line ≡ ok rec → typed line ≡ ok rec
unfolding parse_line
parse_line-typed line rec e = ground arith

parse_line-ne-fault : (line : Text) → parse_line line ≢ fault
unfolding parse_line
parse_line-ne-fault line e =
    let n = number_at line 1 3 in
    ground (
      arith,
      u32_from_hex-ne-fault (slice line 1 3),
      u32_from_hex-ne-fault (slice line 3 7),
      u32_from_hex-ne-fault (slice line 7 9),
      hex_to_bytes-ne-fault (slice line 1 (9 + n * 2 + 2)),
      (Returns-inv (
          typed_record-InRange (number_at line 7 9) n (number_at line 3 7)
            (slice line 9 (9 + n * 2)))).0,
    )

pub parse_line-InRange : (line : Text) → Returns InRange (parse_line line)
parse_line-InRange line =
    Returns-of (parse_line line) (parse_line-ne-fault line)
      (λ rec e. (Returns-inv (typed_record-InRange _ _ _ _)).1 rec (parse_line-typed line rec e))

feed-ne-fault : (acc : Accumulator) (rec : HexRecord) → feed acc rec ≢ fault
unfolding feed
feed-ne-fault acc (record_data offset bytes) e = ground arith
feed-ne-fault acc eof e = cc
feed-ne-fault acc (extended_segment v) e = cc
feed-ne-fault acc (extended_linear v) e = cc
feed-ne-fault acc ignored e = cc

feed_line-IsValid :
    (acc : Accumulator) (line : Text) → IsValid acc → Returns IsValid (feed_line acc line)
unfolding feed_line
feed_line-IsValid acc line v = Returns-bind (Returns-bail_if _ _) λ _ _.
    Returns-bind (parse_line-InRange line) λ rec r.
      Returns-of (feed acc rec) (feed-ne-fault acc rec) (λ acc' e. feed-IsValid acc acc' rec v r e)

feed_lines-IsValid :
    (lines : List Text) (acc : Accumulator) → IsValid acc → Returns IsValid (feed_lines acc lines)
unfolding feed_lines
feed_lines-IsValid [] acc v = gives v
feed_lines-IsValid (raw ∷ lines) acc v = on (feed_lines-IsValid lines) (trim raw)
  where
    on :
        ((a : Accumulator) → IsValid a → Returns IsValid (feed_lines a lines))
        → (line : Text)
        → Returns IsValid (elim line [
          | [] ↦ feed_lines acc lines
          | c ∷ cs ↦ feed_line acc (c ∷ cs) >>= λ acc'. feed_lines acc' lines
        ])
    on later [] = later acc v
    on later (c ∷ cs) = Returns-bind (feed_line-IsValid acc (c ∷ cs) v) later

finish-saw_eof : (acc : Accumulator) {p : ℕ × Bytes} → finish acc ≡ ok p → acc.saw_eof ≡ true
unfolding finish
finish-saw_eof acc e = ground arith

-- The same, also where no record was seen: then the image is empty.
finish-IsImage_valid :
    (acc : Accumulator) (base : ℕ) (img : Bytes) (i : ℕ)
    → IsValid acc
    → finish acc ≡ ok (base, img)
    → IsImage acc.records base img i
finish-IsImage_valid acc base img i v e = from acc.lowest refl
  where
    from : (lo : Option ℕ) → acc.lowest ≡ lo → IsImage acc.records base img i
    from none low = finish-IsImage_empty acc base img i v low e
    from (some m) low = (finish-IsImage acc m base img i v low e).2

-- Where a text decodes to an image, its lines are fed into an accumulator that has seen the end of
-- file, and the image is that accumulator's records laid out: no two records share an address, the
-- byte at an offset is the one a record puts there or 0xFF, and the image is at most 16 MiB long.
pub parse_intel_hex-IsImage :
    (text : Text) (base : ℕ) (img : Bytes) (i : ℕ)
    → parse_intel_hex text ≡ ok (base, img)
    → (acc : Accumulator) × (feed_lines empty (split_lines (normalize text)) ≡ ok acc)
      × (acc.saw_eof ≡ true)
      × IsImage acc.records base img i
unfolding parse_intel_hex
parse_intel_hex-IsImage text base img i h =
    let lines = split_lines (normalize text) in
    let (acc, fed, built) = >>=-eq-ok (feed_lines empty lines) finish h in
    let v = (Returns-inv (feed_lines-IsValid lines empty empty-IsValid)).1 acc fed in
    (acc, fed, finish-saw_eof acc built, finish-IsImage_valid acc base img i v built)

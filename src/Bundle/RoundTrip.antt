-- ===== src/Bundle/RoundTrip.antt =====
-- What `encode` writes, `parse` reads back.
mod Rows
use open_boot.Base.{
  ℕ, zero, suc, ◌+◌, ◌*◌, ◌%◌, ◌^◌, ◌≤◌, ◌<◌, ◌≡◌, refl, sym, ◌∙◌, ap, List, [], ◌∷◌, ◌++◌, ◌==◌,
  ==_refl, ltb, leb, le→leb, le→ltb, >>=-eq-ok, ◌>>=◌, get_or, ◌||◌, true, false, Result, ok, err,
  Bytes, All, length, length-append, IsByte, IsU32, u32_le, u32_of, u32_of-u32_le, arith,
}
use open_boot.Proto.Crc32.{Crc32}
use open_boot.Proto.DeviceInfo.{le32}
use open_boot.Image.{Image}
use open_boot.Bundle.{
  Bundle, header_len, entry_len, max_variants, payloads, table, unsealed, put_crc, encode, parse,
  parse_entries, new,
}
use open_boot.Bundle.IsValid.{IsValid, new_keeps, new-IsValid}
use open_boot.Bundle.RoundTrip.Rows.{parse_entries-table}

-- The fields of the bundle fit the fields of the file, and the file is shorter than 4 GiB.
pub record Fits (b : Bundle) : Type 0 where
  pub family : IsByte b.chip_family
  pub bases : All (λ img. IsU32 img.base) b.images
  pub size : header_len + length b.images * entry_len + length (payloads b.images) < 2 ^ 32

module _ (crc : Crc32) where
  length-table :
      (off : ℕ) (images : List Image) → length (table crc off images) ≡ length images * entry_len
  unfolding table
  length-table off [] = refl
  length-table off (img ∷ rest) =
      omega (arith, length-table ((off + length img.bytes % 2 ^ 32) % 2 ^ 32) rest)

  abbrev rows : Bundle → Bytes
  rows b = table crc (header_len + length b.images * entry_len) b.images

  -- The file with `four` in the place of its checksum.
  abbrev sealed : Bytes → Bundle → Bytes
  sealed four b =
      (b'O' ∷ b'B' ∷ b'B' ∷ b'1' ∷ 1 ∷ 0 ∷ b.chip_family ∷ length b.images ∷ [])
      ++ (four ++ (u32_le 0 ++ (rows b ++ payloads b.images)))

  unsealed-eq : (b : Bundle) → IsValid b → Fits b → unsealed crc b ≡ sealed (u32_le 0) b
  unfolding unsealed
  unsealed-eq b v f =
      let small : (header_len + length b.images * entry_len) % 2 ^ 32
          ≡ header_len + length b.images * entry_len =
        omega (arith, f.size) in
      let count : length b.images % 256 ≡ length b.images = omega (arith, v.most) in
      rw (small, count) refl

  abbrev sum : Bundle → ℕ
  sum b = crc.hash (sealed (u32_le 0) b)

  encode-eq : (b : Bundle) → IsValid b → Fits b → encode crc b ≡ sealed (u32_le (sum b)) b
  unfolding encode put_crc
  encode-eq b v f = ap (λ u. put_crc crc (u32_le (crc.hash u)) u) (unsealed-eq b v f)

  length-sealed :
      (c : ℕ) (b : Bundle)
      → length (sealed (u32_le c) b)
        ≡ header_len + length b.images * entry_len + length (payloads b.images)
  length-sealed c b = omega (
    arith,
    length-append (rows b) (payloads b.images),
    length-table (header_len + length b.images * entry_len) b.images,
  )

  parse-sealed : (b : Bundle) → IsValid b → Fits b → parse crc (sealed (u32_le (sum b)) b) ≡ ok b
  unfolding parse put_crc le32
  parse-sealed b v f =
      let raw = sealed (u32_le (sum b)) b in
      let front : Bytes =
        b'O'
        ∷ b'B'
        ∷ b'B'
        ∷ b'1'
        ∷ 1
        ∷ 0
        ∷ b.chip_family
        ∷ length b.images
        ∷ (u32_le (sum b) ++ u32_le 0) in
      let len = length-sealed (sum b) b in
      let read : parse_entries crc raw (header_len + length b.images * entry_len) 0
            (length b.images)
          ≡ ok b.images =
        parse_entries-table crc raw front (payloads b.images) (front ++ rows b) b.images
          (header_len + length b.images * entry_len) 0 (header_len + length b.images * entry_len)
          refl refl (omega arith)
          (omega (arith, length-table (header_len + length b.images * entry_len) b.images))
          (omega arith) f.size v.writable f.bases in
      let stated = u32_of-u32_le (sum b) (crc.hash-IsU32 (sealed (u32_le 0) b)) in
      let same : (sum b == crc.hash (put_crc crc (0 ∷ 0 ∷ 0 ∷ 0 ∷ []) raw)) ≡ true =
        ==_refl (sum b) in
      let long : ltb (length raw) header_len ≡ false = le→ltb _ _ (omega arith) in
      let header : leb header_len (length raw) ≡ true = le→leb _ _ (omega arith) in
      let whole : ltb (length raw) (header_len + length b.images * entry_len) ≡ false =
        le→ltb _ _ (omega arith) in
      let count : (length b.images == 0 || ltb max_variants (length b.images)) ≡ false =
        ground (arith, v.least, v.most) in
      rw (stated, same, long, header, whole, count, read) (new_keeps b v)

  -- Parsing what `encode` writes for a valid bundle, whose fields fit the file's and whose file
  -- is shorter than 4 GiB, gives the bundle.
  pub parse-encode : (b : Bundle) → IsValid b → Fits b → parse crc (encode crc b) ≡ ok b
  parse-encode b v f = rw (encode-eq b v f) (parse-sealed b v f)

  -- Every bundle that `parse` accepts is valid: it has one to eight images, which begin on word
  -- boundaries, are whole words and not empty, and stand in the order of their bases with none
  -- running into the next.
  pub parse-IsValid : (raw : Bytes) (b : Bundle) → parse crc raw ≡ ok b → IsValid b
  unfolding parse
  parse-IsValid raw b e =
      let count = get_or raw 7 0 in
      let entries = parse_entries crc raw (header_len + count * entry_len) 0 count in
      let last : (entries >>= λ images. new (get_or raw 6 0) images) ≡ ok b = ground arith in
      let (images, _, made) = >>=-eq-ok entries (λ images. new (get_or raw 6 0) images) last in
      (new-IsValid (get_or raw 6 0) images b made).0

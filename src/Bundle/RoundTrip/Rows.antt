-- ===== src/Bundle/RoundTrip/Rows.antt =====
-- The table that `encode` writes is the one that `parse` reads, row by row.
use open_boot.Base.{
  ℕ, suc, ◌+◌, ◌*◌, ◌-◌, ◌%◌, ◌^◌, ◌≤◌, ◌<◌, ◌≡◌, refl, sym, ◌∙◌, ap, List, [], ◌∷◌, ◌++◌, ok,
  Bytes, All, length, slice, take_front, drop_front, length-append, append_assoc, IsU32, u32_le,
  u32_of-u32_le, arith, true, leb, le→leb,
}
use open_boot.Proto.Crc32.{Crc32}
use open_boot.Proto.DeviceInfo.{le32}
use open_boot.Image.{Image, crc32}
use open_boot.Bundle.{
  header_len, entry_len, payloads, table, check_entry, read_entry, parse_entry, parse_entries,
}
use open_boot.Bundle.IsValid.{IsWritable}

slice_mid :
    (front mid back : Bytes) (a b : ℕ)
    → length front ≡ a
    → a + length mid ≡ b
    → slice (front ++ (mid ++ back)) a b ≡ mid
slice_mid front mid back a b h k =
    rw (drop_front a front (mid ++ back) h) (take_front (b - a) mid back (omega arith))

module _ (crc : Crc32) where
  abbrev pub row : ℕ → Image → Bytes
  row off img =
      u32_le img.base
      ++ (u32_le (length img.bytes % 2 ^ 32) ++ (u32_le (crc32 crc img) ++ u32_le off))

  check_entry-ok :
      (raw : Bytes) (img : Image) (table_end i off : ℕ)
      → slice raw off (off + length img.bytes) ≡ img.bytes
      → table_end ≤ off
      → off + length img.bytes ≤ length raw
      → IsWritable img
      → check_entry crc raw table_end i img.base (length img.bytes) (crc32 crc img) off ≡ ok img
  unfolding check_entry crc32
  check_entry-ok raw img table_end i off payload room fits w =
      rw payload (ground (arith, w.aligned, w.some_bytes, w.words))

  read_entry-row :
      (raw : Bytes) (img : Image) (table_end i off : ℕ)
      → IsU32 img.base
      → IsU32 off
      → IsU32 (length img.bytes)
      → read_entry crc raw table_end i (row off img)
        ≡ check_entry crc raw table_end i img.base (length img.bytes) (crc32 crc img) off
  unfolding read_entry le32 crc32
  read_entry-row raw img table_end i off base room len =
      let small : length img.bytes % 2 ^ 32 ≡ length img.bytes = omega arith in
      let hash = crc.hash-IsU32 img.bytes in
      rw
        (
          small,
          u32_of-u32_le img.base base,
          u32_of-u32_le off room,
          u32_of-u32_le (length img.bytes) len,
          u32_of-u32_le (crc.hash img.bytes) hash,
        )
        refl

  -- A row and the payload that it points to are read as the image.
  parse_entry-row :
      (raw A T C P : Bytes) (img : Image) (table_end i off : ℕ)
      → raw ≡ A ++ (row off img ++ T)
      → raw ≡ C ++ (img.bytes ++ P)
      → length A ≡ header_len + i * entry_len
      → length C ≡ off
      → table_end ≤ off
      → off + length img.bytes < 2 ^ 32
      → IsWritable img
      → IsU32 img.base
      → parse_entry crc raw table_end i ≡ ok img
  unfolding parse_entry
  parse_entry-row raw A T C P img table_end i off at_row at_bytes a c room fits w u =
      let entry : slice raw (header_len + i * entry_len) (header_len + (i + 1) * entry_len)
          ≡ row off img =
        rw at_row (slice_mid A (row off img) T _ _ a (omega arith)) in
      let bytes : slice raw off (off + length img.bytes) ≡ img.bytes =
        rw at_bytes (slice_mid C img.bytes P _ _ c refl) in
      let size : length raw ≡ length C + (length img.bytes + length P) =
        rw (at_bytes, length-append C (img.bytes ++ P), length-append img.bytes P) refl in
      let whole : length raw ≡ length A + length (row off img ++ T) =
        rw (at_row, length-append A (row off img ++ T)) refl in
      let inside : leb (header_len + (i + 1) * entry_len) (length raw) ≡ true =
        le→leb _ _ (omega arith) in
      rw (inside, entry)
        (read_entry-row raw img table_end i off u (omega arith) (omega arith)
          ∙ check_entry-ok raw img table_end i off bytes room (omega arith) w)

  -- The rows from i on, whose payloads begin at `off`, are read as the images.
  pub parse_entries-table :
      (raw A B C : Bytes) (images : List Image) (table_end i off : ℕ)
      → raw ≡ A ++ (table crc off images ++ B)
      → raw ≡ C ++ payloads images
      → length A ≡ header_len + i * entry_len
      → length C ≡ off
      → table_end ≤ off
      → off + length (payloads images) < 2 ^ 32
      → All IsWritable images
      → All (λ img. IsU32 img.base) images
      → parse_entries crc raw table_end i (length images) ≡ ok images
  unfolding parse_entries table payloads
  parse_entries-table raw A B C [] table_end i off at_rows at_bytes a c room fits w u = refl
  parse_entries-table raw A B C (img ∷ rest) table_end i off at_rows at_bytes a c room fits (w, ws)
        (u, us) =
      let size = length-append img.bytes (payloads rest) in
      let next : (off + length img.bytes % 2 ^ 32) % 2 ^ 32 ≡ off + length img.bytes =
        omega arith in
      let T = table crc (off + length img.bytes) rest in
      let at_rows' : raw ≡ A ++ (row off img ++ (T ++ B)) =
        at_rows ∙ ap (λ k. A ++ (row off img ++ (table crc k rest ++ B))) next in
      let first =
        parse_entry-row raw A (T ++ B) C (payloads rest) img table_end i off at_rows' at_bytes a c
          room (omega arith) w u in
      let others =
        parse_entries-table raw (A ++ row off img) B (C ++ img.bytes) rest table_end (suc i)
          (off + length img.bytes) (at_rows' ∙ sym (append_assoc A (row off img) (T ++ B)))
          (at_bytes ∙ sym (append_assoc C img.bytes (payloads rest)))
          (omega (arith, length-append A (row off img))) (omega (arith, length-append C img.bytes))
          (omega arith) (omega arith) ws us in
      rw (first, others) refl

-- ===== src/Bundle/Total.antt =====
-- Reading a bundle never panics.
use open_boot.Base.{
  ℕ, zero, suc, ◌+◌, ◌*◌, ◌≤◌, ◌≢◌, List, [], ◌∷◌, ok, err, fault, Result, Bytes, length, get_or,
  arith, ◌>>=◌, refl,
}
use open_boot.Proto.Crc32.{Crc32}
use open_boot.Image.{Image}
use open_boot.Bundle.Errors.{BundleError}
use open_boot.Bundle.{
  sort, header_len, entry_len, check_each, check_pairs, new, check_entry, parse_entry,
  parse_entries, parse,
}

check_each-ne-fault : (i : ℕ) (images : List Image) → check_each i images ≢ fault
unfolding check_each
check_each-ne-fault i [] e = cc
check_each-ne-fault i (img ∷ rest) e = ground (arith, check_each-ne-fault (suc i) rest)

check_pairs-ne-fault : (images : List Image) → check_pairs images ≢ fault
unfolding check_pairs
check_pairs-ne-fault [] e = cc
check_pairs-ne-fault (a ∷ []) e = cc
check_pairs-ne-fault (a ∷ b ∷ rest) e = ground (arith, check_pairs-ne-fault (b ∷ rest))

new-ne-fault : (family : ℕ) (images : List Image) → new family images ≢ fault
unfolding new
new-ne-fault family images e =
    ground (arith, check_each-ne-fault 0 images, check_pairs-ne-fault (sort images))

module _ (crc : Crc32) where
  check_entry-ne-fault :
      (raw : Bytes) (table_end i base len sum off : ℕ)
      → check_entry crc raw table_end i base len sum off ≢ fault
  unfolding check_entry
  check_entry-ne-fault raw table_end i base len sum off e = ground arith

  parse_entry-ne-fault :
      (raw : Bytes) (table_end i : ℕ)
      → header_len + (i + 1) * entry_len ≤ length raw
      → parse_entry crc raw table_end i ≢ fault
  unfolding parse_entry
  parse_entry-ne-fault raw table_end i h e = ground (arith, check_entry-ne-fault raw table_end i)

  parse_entries-ne-fault :
      (raw : Bytes) (table_end i n : ℕ)
      → header_len + (i + n) * entry_len ≤ length raw
      → parse_entries crc raw table_end i n ≢ fault
  unfolding parse_entries
  parse_entries-ne-fault raw table_end i zero h e = cc
  parse_entries-ne-fault raw table_end i (suc n) h e = ground (
    arith,
    parse_entry-ne-fault raw table_end i (omega arith),
    parse_entries-ne-fault raw table_end (suc i) n (omega arith),
  )

  chain :
      (family : ℕ) (r : Result BundleError (List Image))
      → r ≢ fault
      → (r >>= λ images. new family images) ≢ fault
  chain family (ok images) h e = new-ne-fault family images e
  chain family (err x) h e = cc
  chain family fault h e = h refl

  -- Whatever the file, no read of `parse` is out of range.
  pub parse-ne-fault : (raw : Bytes) → parse crc raw ≢ fault
  unfolding parse
  parse-ne-fault raw e =
      let count = get_or raw 7 0 in
      let table_end = header_len + count * entry_len in
      ground (
        arith,
        chain (get_or raw 6 0) (parse_entries crc raw table_end 0 count),
        parse_entries-ne-fault raw table_end 0 count,
      )

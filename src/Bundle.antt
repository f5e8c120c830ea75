-- ===== src/Bundle.antt =====
-- tools/src/bundle.rs: the container of the per-slot builds, written and read, and the choice of the
-- image that fits the device.
pub mod Errors
pub mod Source
pub mod Load
pub mod IsValid
pub mod RoundTrip
pub mod Total
pub use Errors.*
use open_boot.Base.{
  ℕ, zero, suc, ◌+◌, ◌*◌, ◌-◌, ◌%◌, ◌^◌, ◌≤◌, ◌<◌, Bool, true, false, not, ◌&&◌, ◌||◌, List, [],
  ◌∷◌, ◌++◌, Option, none, some, Result, ok, err, fault, ◌>>=◌, ◌>>◌, bail_if, Bytes, length,
  get_or, take, drop, slice, bytes_eq, u32_le, u32_of, ltb, leb, ◌==◌, if◌then◌else◌, map, within,
}
use open_boot.Proto.Crc32.{Crc32}
use open_boot.Proto.DeviceInfo.{le32}
use open_boot.Image.{Image, crc32, is_empty}

abbrev pub magic : Bytes
magic = b'O' ∷ b'B' ∷ b'B' ∷ b'1' ∷ []

abbrev pub format_major : ℕ
format_major = 1

abbrev pub format_minor : ℕ
format_minor = 0

abbrev pub header_len : ℕ
header_len = 16

abbrev pub entry_len : ℕ
entry_len = 16

abbrev pub max_variants : ℕ
max_variants = 8

abbrev pub family_unspecified : ℕ
family_unspecified = 0

pub record Bundle : Type 0 where
  pub chip_family : ℕ
  pub images : List Image

-- The rules for each image; `i` is its place in the list.
unfoldable pub check_each : ℕ → List Image → Result BundleError (Unit {0})
check_each i [] = ok tt
check_each i (img ∷ rest) =
    let more = check_each (suc i) rest in
    if not (img.base % 4 == 0)
    then err (misaligned_base i img.base)
    else if is_empty img.bytes || not (length img.bytes % 4 == 0)
    then err (bad_length i (length img.bytes))
    else more

-- `sort_by_key(|i| i.base)`, which is stable.
unfoldable pub insert : Image → List Image → List Image
insert img [] = img ∷ []
insert img (x ∷ xs) = if leb img.base x.base then img ∷ x ∷ xs else x ∷ insert img xs

unfoldable pub sort : List Image → List Image
unfolding insert
sort [] = []
sort (x ∷ xs) = insert x (sort xs)

-- The loop over `windows(2)`.
unfoldable pub check_pairs : List Image → Result BundleError (Unit {0})
check_pairs [] = ok tt
check_pairs (a ∷ []) = ok tt
check_pairs (a ∷ b ∷ rest) =
    let more = check_pairs (b ∷ rest) in
    if a.base == b.base
    then err (shared_base a.base)
    else if ltb b.base (a.base + length a.bytes)
    then err (overlap a.base b.base)
    else more

unfoldable pub new : ℕ → List Image → Result BundleError Bundle
unfolding check_each sort check_pairs
new chip_family images = do
  bail_if (length images == 0) no_images
  bail_if (ltb max_variants (length images)) (too_many (length images))
  check_each 0 images
  check_pairs (sort images)
  ok (record { chip_family = chip_family; images = sort images })

unfoldable pub looks_like_bundle : Bytes → Bool
looks_like_bundle raw = leb 4 (length raw) && bytes_eq (take 4 raw) magic

unfoldable pub payloads : List Image → Bytes
payloads [] = []
payloads (img ∷ rest) = img.bytes ++ payloads rest

module _ (crc : Crc32) where
  -- The variant table; `offset` is a u32.
  unfoldable pub table : ℕ → List Image → Bytes
  table offset [] = []
  table offset (img ∷ rest) =
      (u32_le img.base
        ++ (u32_le (length img.bytes % 2 ^ 32) ++ (u32_le (crc32 crc img) ++ u32_le offset)))
      ++ table ((offset + length img.bytes % 2 ^ 32) % 2 ^ 32) rest

  -- The file with zeros for its checksum.
  unfoldable pub unsealed : Bundle → Bytes
  unfolding table payloads
  unsealed b =
      let count = length b.images in
      let table_len = count * entry_len in
      (magic ++ (format_major ∷ format_minor ∷ b.chip_family ∷ count % 256 ∷ []))
      ++ (u32_le 0
          ++ (u32_le 0
              ++ (table ((header_len + table_len) % 2 ^ 32) b.images ++ payloads b.images)))

  -- `out[8..12].copy_from_slice(..)`
  unfoldable pub put_crc : Bytes → Bytes → Bytes
  put_crc four out = take 8 out ++ (four ++ drop 12 out)

  unfoldable pub encode : Bundle → Bytes
  unfolding unsealed put_crc
  encode b = put_crc (u32_le (crc.hash (unsealed b))) (unsealed b)

  -- The checks on one row of the table, and the payload that it points to.
  unfoldable pub check_entry : Bytes → ℕ → ℕ → ℕ → ℕ → ℕ → ℕ → Result BundleError Image
  check_entry raw table_end i base len sum off =
      let end = off + len in
      let bytes = slice raw off end in
      if len == 0 || not (len % 4 == 0)
      then err (bad_length i len)
      else if not (base % 4 == 0)
      then err (misaligned_base i base)
      else if ltb off table_end || ltb (length raw) end
      then err (payload_outside i off end)
      else within end raw (
          if not (crc.hash bytes == sum)
          then err (variant_crc i sum (crc.hash bytes))
          else ok (record { base = base; bytes = bytes }))

  unfoldable pub read_entry : Bytes → ℕ → ℕ → Bytes → Result BundleError Image
  unfolding le32 check_entry
  read_entry raw table_end i e =
      check_entry raw table_end i (le32 (slice e 0 4)) (le32 (slice e 4 8)) (le32 (slice e 8 12))
        (le32 (slice e 12 16))

  unfoldable pub parse_entry : Bytes → ℕ → ℕ → Result BundleError Image
  unfolding read_entry
  parse_entry raw table_end i = within (header_len + (i + 1) * entry_len) raw (
      read_entry raw table_end i
        (slice raw (header_len + i * entry_len) (header_len + (i + 1) * entry_len)))

  -- `for i in 0..count`, from i on with so many left.
  unfoldable pub parse_entries : Bytes → ℕ → ℕ → ℕ → Result BundleError (List Image)
  unfolding parse_entry
  parse_entries raw table_end i zero = ok []
  parse_entries raw table_end i (suc n) = do
    image ← parse_entry raw table_end i
    images ← parse_entries raw table_end (suc i) n
    ok (image ∷ images)

  unfoldable pub parse : Bytes → Result BundleError Bundle
  unfolding parse_entries new put_crc le32
  parse raw = do
    bail_if (ltb (length raw) header_len) (too_short (length raw))
    within header_len raw (ok tt)
    bail_if (not (bytes_eq (take 4 raw) magic)) bad_magic
    bail_if (not (get_or raw 4 0 == format_major))
        (unsupported_major (get_or raw 4 0) (get_or raw 5 0))
    let chip_family = get_or raw 6 0
    let count = get_or raw 7 0
    bail_if (count == 0 || ltb max_variants count) (bad_count count)
    bail_if (not (le32 (slice raw 12 16) == 0)) reserved_not_zero
    let stated = le32 (slice raw 8 12)
    let actual = crc.hash (put_crc (0 ∷ 0 ∷ 0 ∷ 0 ∷ []) raw)
    bail_if (not (stated == actual)) (bundle_crc stated actual)
    let table_end = header_len + count * entry_len
    bail_if (ltb (length raw) table_end) (truncated_table count)
    images ← parse_entries raw table_end 0 count
    new chip_family images

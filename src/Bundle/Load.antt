-- ===== src/Bundle/Load.antt =====
-- tools/src/bundle.rs: `load_source`, and the names of the chip families. The bytes of the file, and
-- the lossy decoding of its text, are arguments.
use open_boot.Base.{
  ℕ, ◌+◌, ◌≡◌, refl, Bool, true, false, ◌&&◌, List, [], ◌∷◌, map, Option, none, some, Result, ok,
  err, fault, map_err, Bytes, bytes_eq, leb, if◌then◌else◌, arith,
}
use open_boot.Text.{Text}
use open_boot.Proto.Consts.{family_ch570, family_ch572, family_ch591, family_ch592}
use open_boot.Proto.Crc32.{Crc32}
use open_boot.Image.{ImageError, load_image}
use open_boot.Bundle.{Bundle, BundleError, looks_like_bundle, encode, parse}
use open_boot.Bundle.IsValid.{IsValid}
use open_boot.Bundle.RoundTrip.{Fits, parse-encode}
use open_boot.Bundle.Source.{Source, single, bundle}

-- "ch57" and a digit, "ch59" and a digit.
abbrev pub family_names : List (Text × ℕ)
family_names =
    (b'c' ∷ b'h' ∷ b'5' ∷ b'7' ∷ b'0' ∷ [], family_ch570)
    ∷ (b'c' ∷ b'h' ∷ b'5' ∷ b'7' ∷ b'2' ∷ [], family_ch572)
    ∷ (b'c' ∷ b'h' ∷ b'5' ∷ b'9' ∷ b'1' ∷ [], family_ch591)
    ∷ (b'c' ∷ b'h' ∷ b'5' ∷ b'9' ∷ b'2' ∷ [], family_ch592)
    ∷ []

abbrev pub to_ascii_lowercase : ℕ → ℕ
to_ascii_lowercase c = if leb b'A' c && leb c b'Z' then c + 32 else c

abbrev pub eq_ignore_ascii_case : Text → Text → Bool
eq_ignore_ascii_case s t = bytes_eq (map to_ascii_lowercase s) (map to_ascii_lowercase t)

abbrev pub find_name : Text → List (Text × ℕ) → Option ℕ
find_name name [] = none
find_name name ((n, v) ∷ rest) = if eq_ignore_ascii_case n name then some v else find_name name rest

unfoldable pub family_from_name : Text → Option ℕ
family_from_name name = find_name name family_names

unfoldable pub bases : Bundle → List ℕ
bases b = map (λ i. i.base) b.images

pub data LoadError : Type 0 where
  base_with_bundle : LoadError
  bad_bundle : BundleError → LoadError
  bad_image : ImageError → LoadError

abbrev pub map_ok : {E A B : Type 0} → (A → B) → Result E A → Result E B
map_ok f (ok a) = ok (f a)
map_ok f (err e) = err e
map_ok f fault = fault

abbrev pub is_some : Option ℕ → Bool
is_some none = false
is_some (some n) = true

module _ (crc : Crc32) (from_utf8_lossy : Bytes → Text) where
  unfoldable pub load_source : Bytes → Bool → Option ℕ → Result LoadError Source
  unfolding looks_like_bundle parse load_image
  load_source raw is_hex base_override =
      if looks_like_bundle raw
      then (if is_some base_override
          then err base_with_bundle
          else map_ok bundle (map_err bad_bundle (parse crc raw)))
      else map_ok single (map_err bad_image (load_image from_utf8_lossy raw is_hex base_override))

  parse-looks_like_bundle :
      (raw : Bytes) (b : Bundle) → parse crc raw ≡ ok b → looks_like_bundle raw ≡ true
  unfolding parse looks_like_bundle
  parse-looks_like_bundle raw b e = ground arith

  -- A file with what `encode` writes for a valid bundle, whose fields fit the file's and whose file is
  -- shorter than 4 GiB, is loaded as this bundle, whatever the file is named; and a base that is given
  -- with it is refused.
  pub load_source-encode :
      (b : Bundle) (is_hex : Bool) (base : ℕ)
      → IsValid b
      → Fits b
      → (load_source (encode crc b) is_hex none ≡ ok (bundle b))
        × (load_source (encode crc b) is_hex (some base) ≡ err base_with_bundle)
  unfolding load_source
  load_source-encode b is_hex base v f =
      let read = parse-encode crc b v f in
      let known = parse-looks_like_bundle (encode crc b) b read in
      (rw (known, read) refl, rw known refl)

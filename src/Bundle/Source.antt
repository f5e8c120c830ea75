-- ===== src/Bundle/Source.antt =====
-- tools/src/bundle.rs: `Source`, one image or a bundle, and the choices that the flows make from it.
-- The device's name in the messages, and the word that says whose base it is, are left out.
pub mod Choice
use open_boot.Base.{
  ℕ, Bool, true, false, not, ◌&&◌, List, [], ◌∷◌, Option, none, some, Result, ok, err, bail_if,
  length, ◌==◌, if◌then◌else◌,
}
use open_boot.Image.{Image}
use open_boot.Bundle.{
  Bundle, BundleError, family_unspecified, wrong_family, no_variant, only_write_target,
  ambiguous_running,
}

-- `iter().find(|i| i.base == base)`
unfoldable pub for_base : List Image → ℕ → Option Image
for_base [] base = none
for_base (i ∷ is) base = if i.base == base then some i else for_base is base

pub data Source : Type 0 where
  single : Image → Source
  bundle : Bundle → Source

-- `filter(|i| i.base != write_base)`
unfoldable pub others : ℕ → List Image → List Image
others write_base [] = []
others write_base (i ∷ is) =
    if not (i.base == write_base) then i ∷ others write_base is else others write_base is

unfoldable pub check_family : Source → ℕ → Result BundleError (Unit {0})
check_family (single i) chip_family = ok tt
check_family (bundle b) chip_family =
    bail_if (not (b.chip_family == family_unspecified) && not (b.chip_family == chip_family))
      (wrong_family b.chip_family chip_family)

abbrev pub found : ℕ → Option Image → Result BundleError Image
found base none = err (no_variant base)
found base (some i) = ok i

unfoldable pub image_for_base : Source → ℕ → Result BundleError Image
unfolding for_base
image_for_base (single i) base = ok i
image_for_base (bundle b) base = found base (for_base b.images base)

abbrev pub only : ℕ → List Image → Result BundleError Image
only write_base [] = err (only_write_target write_base)
only write_base (i ∷ []) = ok i
only write_base (i ∷ j ∷ is) = err (ambiguous_running (length (i ∷ j ∷ is)))

unfoldable pub for_running_image : Source → ℕ → Result BundleError Image
unfolding others
for_running_image (single i) write_base = ok i
for_running_image (bundle b) write_base = only write_base (others write_base b.images)

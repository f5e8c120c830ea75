-- ===== src/Tests/Bundle.antt =====
-- The theorems of the bundle on concrete images.
use open_boot.Base.{Among, true, none, some, err, ◌≡◌, ◌≢◌, ◌↔◌, refl, [], ◌∷◌, ok, arith}
use open_boot.Image.{Image}
use open_boot.Bundle
use open_boot.Bundle.{Bundle, check_each, sort, insert, check_pairs}
use open_boot.Bundle.IsValid.{IsValid, new-IsValid}
use open_boot.Bundle.RoundTrip.{Fits, parse-encode, parse-IsValid}
use open_boot.Bundle.Source.{Source, image_for_base, for_running_image}
use open_boot.Bundle.Source.Choice.{image_for_base-ok, for_running_image-ok}
use open_boot.Bundle.Load.{load_source, load_source-encode, base_with_bundle, family_from_name}
use open_boot.Proto.Consts.{family_ch592}
use open_boot.Tests.Instances.{sum_crc}

abbrev pub low : Image
low = record { base = 0x2000; bytes = 1 ∷ 2 ∷ 3 ∷ 4 ∷ [] }

abbrev pub high : Image
high = record { base = 0xa000; bytes = 5 ∷ 6 ∷ 7 ∷ 8 ∷ 9 ∷ 10 ∷ 11 ∷ 12 ∷ [] }

abbrev pub pair : Bundle
pair = record { chip_family = 1; images = low ∷ high ∷ [] }

made : Bundle.new 1 (high ∷ low ∷ []) ≡ ok pair
unfolding Bundle.new check_each sort insert check_pairs
made = refl

pair-IsValid : IsValid pair
pair-IsValid = (new-IsValid 1 (high ∷ low ∷ []) pair made).0

pair-Fits : Fits pair
unfolding Bundle.payloads
pair-Fits = record { family = omega arith; bases = omega arith; size = omega arith }

parse-encode_example : Bundle.parse sum_crc (Bundle.encode sum_crc pair) ≡ ok pair
parse-encode_example = parse-encode sum_crc pair pair-IsValid pair-Fits

parse-IsValid_example : IsValid pair
parse-IsValid_example =
    parse-IsValid sum_crc (Bundle.encode sum_crc pair) pair
      (parse-encode sum_crc pair pair-IsValid pair-Fits)

image_for_base-ok_example :
    (image_for_base (Source.bundle pair) 0xa000 ≡ ok high)
    ↔ (Among high pair.images × (high.base ≡ 0xa000))
image_for_base-ok_example = image_for_base-ok pair 0xa000 high pair-IsValid

running : for_running_image (Source.bundle pair) 0xa000 ≡ ok low
unfolding for_running_image
running = refl

for_running_image-ok_example :
    Among low pair.images
    × (low.base ≢ 0xa000)
    × ((j : Image) → Among j pair.images → j.base ≢ 0xa000 → j ≡ low)
for_running_image-ok_example = for_running_image-ok pair 0xa000 low running

load_source-encode_example :
    (load_source sum_crc (λ b. b) (Bundle.encode sum_crc pair) true none ≡ ok (Source.bundle pair))
    × (load_source sum_crc (λ b. b) (Bundle.encode sum_crc pair) true (some 5)
        ≡ err base_with_bundle)
load_source-encode_example = load_source-encode sum_crc (λ b. b) pair true 5 pair-IsValid pair-Fits

ch592 : family_from_name (b'C' ∷ b'h' ∷ b'5' ∷ b'9' ∷ b'2' ∷ []) ≡ some family_ch592
unfolding family_from_name
ch592 = refl

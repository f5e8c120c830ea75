-- ===== src/Flows/Checks.antt =====
-- Where `erase` erases, and what a success of `verify` means.
use open_boot.Base.{
  ℕ, ◌+◌, ◌%◌, ◌^◌, ◌≤◌, ◌≡◌, sym, ap, subst, ◌∙◌, Bool, not, [], ◌∷◌, Option, ok, length, IsU32,
  arith, map_err, ◌⊎◌, ◌≢◌, Among,
}
use open_boot.Base.Actions.{lift, >>=-inv}
use open_boot.Proto.Crc32.{Crc32}
use open_boot.Proto.DeviceInfo.{DeviceInfo, IsUsable}
use open_boot.Image.{Image, crc32}
use open_boot.Bundle.{Bundle, family_unspecified}
use open_boot.Bundle.Source.Choice.{for_running_image-ok}
use open_boot.Bundle.Source.{Source, check_family, for_running_image}
use open_boot.Flows.Commands.{Device, Call}
use open_boot.Flows.{
  call, client_error, bundle_error, erase_region, erase_range, check_erase, erase, verify,
  compare_crc, check_in_region,
}
use open_boot.Flows.Window.{Keeps, Keeps-none, Keeps-bind, Keeps-if, Keeps-tiles}
use open_boot.Flows.Session.{ok-inj, call-ok}

check_erase-fits :
    (info : DeviceInfo) (start len : ℕ) (u : Unit {0})
    → IsUsable info
    → IsU32 info.app_end
    → check_erase info start len ≡ ok u
    → (info.write_base ≤ start) × (start + len ≤ info.write_base + info.write_capacity)
unfolding check_erase
check_erase-fits info start len u usable word e = ground (arith, usable.window_end)

module _ (d : Device) where
  -- Let the device answer HELLO with a description whose region ends at a u32. Whatever `erase` is
  -- asked for, and whatever comes of it, every ERASE and WRITE that it sends lies within the write
  -- window of that description.
  pub erase-InWindow :
      (all : Bool) (start len : Option ℕ) (force : Bool) (s : d.State) (info : DeviceInfo)
      → (d.hello s).0 ≡ ok info
      → IsU32 info.app_end
      → Keeps d info.write_base
          (info.write_base + info.write_capacity)
          (erase d all start len force)
          s
  unfolding erase
  erase-InWindow all start len force s info answer word =
      let lo = info.write_base in
      let hi = info.write_base + info.write_capacity in
      let u = d.hello-IsUsable s info answer in
      Keeps-bind d lo hi (call d d.hello) _ s (Call.hello ∷ [], d.issued-hello s, (tt, tt))
        λ i e.
          let same : i ≡ info =
            let known = call-ok client_error (d.hello s).0 i e in
            ok-inj i info (sym known ∙ answer) in
          Keeps-bind d lo hi (lift (erase_range i all start len)) _ _
            (Keeps-none d lo hi (erase_range i all start len) _)
            λ range e1.
              Keeps-bind d lo hi (lift (check_erase i range.0 range.1)) _ _
                (Keeps-none d lo hi (check_erase i range.0 range.1) _)
                λ x e2.
                  let fits =
                    check_erase-fits info range.0 range.1 x u word
                      (ap (λ j. check_erase j range.0 range.1) (sym same) ∙ e2) in
                  Keeps-if d lo hi (not force) _ _ _ (Keeps-none d lo hi {B = Unit {0}} (ok tt) _) (
                    subst
                      (λ j.
                        Keeps d lo hi (erase_region d range.0 range.1 j.erase_block) (d.hello s).1)
                      (sym same)
                      (Keeps-tiles d lo hi range.0 range.1 info.erase_block _
                        (omega (arith, fits, u.window_end)) (omega (arith, u.block)) fits.0 fits.1))

  compare_crc-ok :
      (base len local : ℕ) (s : d.State)
      → (compare_crc d base len local s).0 ≡ ok tt
      → (d.crc base len s).0 ≡ ok local
  unfolding compare_crc
  compare_crc-ok base len local s e =
      let (device_crc, got, same) = >>=-inv (call d (d.crc base len)) _ s tt e in
      let equal : device_crc ≡ local = ground arith in
      call-ok client_error (d.crc base len s).0 device_crc got ∙ ap (λ c. ok c) equal

  in_region :
      (info : DeviceInfo) (base len : ℕ)
      → check_in_region info base len ≡ ok tt
      → (info.app_start ≤ base) × (base + len ≤ info.app_end)
  unfolding check_in_region
  in_region info base len e = ground arith

  -- The image that stands for what runs beside the write slot: the image itself, or the one image of a
  -- bundle, for this chip family or for none, that is not based at the write slot.
  pub data Runs (family write_base : ℕ) : Source → Image → Type 0 where
    lone : {i : Image} → Runs family write_base (Source.single i) i
    member :
        {b : Bundle} {i : Image}
        → (b.chip_family ≡ family_unspecified) ⊎ (b.chip_family ≡ family)
        → Among i b.images
        → i.base ≢ write_base
        → ((j : Image) → Among j b.images → j.base ≢ write_base → j ≡ i)
        → Runs family write_base (Source.bundle b) i

  chosen-Runs :
      (source : Source) (family write_base : ℕ) (i : Image)
      → check_family source family ≡ ok tt
      → for_running_image source write_base ≡ ok i
      → Runs family write_base source i
  chosen-Runs (Source.single j) family write_base i f e =
      let same : j ≡ i = unfold for_running_image in cc in
      subst (λ k. Runs family write_base (Source.single j) k) same lone
  chosen-Runs (Source.bundle b) family write_base i f e =
      let (there, apart, alone) = for_running_image-ok b write_base i e in
      let suits : (b.chip_family ≡ family_unspecified) ⊎ (b.chip_family ≡ family) =
        unfold check_family in ground arith in
      member suits there apart alone

  -- Where `verify` succeeds, the device has answered HELLO with a description, and CRC over the bytes
  -- from an image's base on with the CRC32 of the image's bytes. That image lies in the region of the
  -- description, and it is the single image of the source, or the only image, not based at the
  -- description's write slot, of a bundle for the description's chip family or for no family.
  pub verify-ok :
      (crc : Crc32) (source : Source) (s : d.State)
      → (verify d crc source s).0 ≡ ok tt
      → (info : DeviceInfo) × (image : Image) × ((d.hello s).0 ≡ ok info)
        × Runs info.chip_family info.write_base source image
        × (info.app_start ≤ image.base)
        × (image.base + length image.bytes ≤ info.app_end)
        × ((d.crc image.base (length image.bytes % 2 ^ 32) (d.hello s).1).0
            ≡ ok (crc.hash image.bytes))
  unfolding verify crc32
  verify-ok crc source s e =
      let (info, hello, e1) = >>=-inv (call d d.hello) _ s tt e in
      let (u, family, e2) =
        >>=-inv (lift (map_err bundle_error (check_family source info.chip_family))) _ (d.hello s).1
          tt e1 in
      let (image, chosen, e3) =
        >>=-inv (lift (map_err bundle_error (for_running_image source info.write_base))) _
          (d.hello s).1 tt e2 in
      let (v, inside, e4) =
        >>=-inv (lift (check_in_region info image.base (length image.bytes))) _ (d.hello s).1 tt
          e3 in
      (
        info,
        image,
        call-ok client_error (d.hello s).0 info hello,
        chosen-Runs source info.chip_family info.write_base image
            (call-ok bundle_error (check_family source info.chip_family) tt family)
            (call-ok bundle_error (for_running_image source info.write_base) image chosen),
        (in_region info image.base (length image.bytes) inside).0,
        (in_region info image.base (length image.bytes) inside).1,
        compare_crc-ok image.base (length image.bytes % 2 ^ 32) (crc32 crc image) (d.hello s).1 e4,
      )

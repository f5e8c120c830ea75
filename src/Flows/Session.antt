-- ===== src/Flows/Session.antt =====
-- The flows as a whole: where they write, what a dry run does, what a success means.
use open_boot.Base.{
  ℕ, ◌+◌, ◌*◌, ◌/◌, ◌^◌, ◌≤◌, ◌<◌, ◌≡◌, sym, ap, ◌∙◌, false, not, List, [], ◌∷◌, ◌++◌, Result, ok,
  err, fault, length, IsU32, arith, map_err, max,
}
use open_boot.Base.Actions.{lift}
use open_boot.Proto.Crc32.{Crc32}
use open_boot.Proto.DeviceInfo.{DeviceInfo, IsUsable}
use open_boot.Image.{Image, crc32}
use open_boot.Bundle.Source.{Source}
use open_boot.Flows.Commands.{Device, Call}
use open_boot.Flows.{
  FlashOpts, FlashPlan, plan_flash, choose, call, execute_flash, flash, erase_chunk, client_error,
}
use open_boot.Flows.Tiling.{EraseTiles, WriteTiles}
use open_boot.Flows.Window.{Keeps, Keeps-none, Keeps-bind, Keeps-if, Keeps-execute, plan_flash-fits}

pub ok-inj : {A E : Type 0} (a b : A) → (let x : Result E A = ok a in x) ≡ ok b → a ≡ b
ok-inj a b e = cc

pub call-ok : {E F A : Type 0} (f : E → F) (r : Result E A) (a : A) → map_err f r ≡ ok a → r ≡ ok a
call-ok f (ok b) a e = cc
call-ok f (err x) a e = cc
call-ok f fault a e = cc

pub plan_flash-sizes :
    (crc : Crc32) (info : DeviceInfo) (image : Image) (opts : FlashOpts) (p : FlashPlan)
    → plan_flash crc info image opts ≡ ok p
    → (p.chunk ≡ info.max_write_data)
      × (p.block ≡ info.erase_block)
      × (p.crc ≡ crc.hash image.bytes)
unfolding plan_flash crc32
plan_flash-sizes crc info image opts p e = ground arith

module _ (d : Device) (crc : Crc32) (info : DeviceInfo) where
  planned :
      (image : Image) (opts : FlashOpts) (p : FlashPlan) (s : d.State)
      → IsUsable info
      → IsU32 info.app_end
      → length image.bytes + info.erase_block ≤ 2 ^ 32
      → plan_flash crc info image opts ≡ ok p
      → Keeps d info.write_base (info.write_base + info.write_capacity) (execute_flash d image p) s
  planned image opts p s u word small e =
      let fits = plan_flash-fits crc info image opts p u word small e in
      let sizes = plan_flash-sizes crc info image opts p e in
      Keeps-execute d info.write_base (info.write_base + info.write_capacity) image p s fits.1
        (omega (arith, u.chunk, sizes.0)) (omega (arith, u.block, sizes.1)) (omega (arith, fits.0))
        (omega (arith, fits.0, fits.4)) (omega (arith, fits.2)) (omega (arith, u.window_end))

module _ (d : Device) (crc : Crc32) where
  -- Let the device answer HELLO with a description whose region ends at a u32, such that the
  -- image chosen for it and one erase block are at most 4 GiB together. Whatever comes of
  -- `flash`, every ERASE and WRITE that it sends lies within the write window of that
  -- description.
  pub flash-InWindow :
      (source : Source) (opts : FlashOpts) (s : d.State) (info : DeviceInfo)
      → (d.hello s).0 ≡ ok info
      → IsU32 info.app_end
      → ((image : Image)
          → choose source info ≡ ok image
          → length image.bytes + info.erase_block ≤ 2 ^ 32)
      → Keeps d info.write_base (info.write_base + info.write_capacity) (flash d crc source opts) s
  unfolding flash
  flash-InWindow source opts s info answer word small =
      let lo = info.write_base in
      let hi = info.write_base + info.write_capacity in
      let u = d.hello-IsUsable s info answer in
      Keeps-bind d lo hi (call d d.hello) _ s (Call.hello ∷ [], d.issued-hello s, (tt, tt))
        λ i e.
          let same : i ≡ info =
            let known = call-ok client_error (d.hello s).0 i e in
            ok-inj i info (sym known ∙ answer) in
          Keeps-bind d lo hi (lift (choose source i)) _ _ (Keeps-none d lo hi (choose source i) _)
            λ image e1.
              Keeps-bind d lo hi (lift (plan_flash crc i image opts)) _ _
                (Keeps-none d lo hi (plan_flash crc i image opts) _)
                λ p e2.
                  Keeps-if d lo hi (not opts.force) _ _ _
                    (Keeps-none d lo hi {B = Unit {0}} (ok tt) _)
                    (planned d crc info image opts p _ u word
                      (small image (ap (choose source) (sym same) ∙ e1))
                      (ap (λ j. plan_flash crc j image opts) (sym same) ∙ e2))

  -- Without `force`, `flash` sends HELLO and nothing else, whatever comes of it.
  pub flash_dry :
      (source : Source) (opts : FlashOpts) (s : d.State)
      → opts.force ≡ false
      → d.issued (flash d crc source opts s).1 ≡ d.issued s ++ (Call.hello ∷ [])
  unfolding flash
  flash_dry source opts s dry = ground (arith, d.issued-hello s)

  -- The device has been told to erase whole blocks from the base of the image on, as many as cover
  -- the image, then to write the image from its base on, every byte once and in order, and nothing
  -- else; and it has then accepted COMMIT of the image's length and checksum.
  pub record Committed (info : DeviceInfo) (image : Image) (s : d.State) : Type 0 where
    pub erases : List Call
    pub writes : List Call
    pub before : d.State
    pub span : ℕ
    pub covers : length image.bytes ≤ span
    pub tight : span < length image.bytes + info.erase_block
    pub erased :
        EraseTiles info.erase_block
          (max (erase_chunk / info.erase_block) 1 * info.erase_block)
          image.base
          erases
          (image.base + span)
    pub written : WriteTiles info.max_write_data image.base image.bytes writes []
    pub log : d.issued before ≡ d.issued s ++ (erases ++ writes)
    pub accepted : (d.commit (length image.bytes) (crc.hash image.bytes) before).0 ≡ ok tt

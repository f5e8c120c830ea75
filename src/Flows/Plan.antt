-- ===== src/Flows/Plan.antt =====
-- tools/src/flows.rs: what a flow settles before the device is changed: the checks, the choice of the
-- image and the plan.
use open_boot.Base.{
  ℕ, ◌+◌, ◌*◌, ◌-◌, ◌%◌, ◌^◌, Bool, true, false, not, ◌||◌, Option, none, some, Result, ok, err,
  ◌>>=◌, ◌>>◌, bail_if, map_err, length, div_ceil, nonzero, ltb, ◌==◌, if◌then◌else◌,
}
use open_boot.Proto.Crc32.{Crc32}
use open_boot.Proto.DeviceInfo.{DeviceInfo, crc_live}
use open_boot.Image.{Image, crc32}
use open_boot.Bundle.Source.{Source, check_family, image_for_base}
use open_boot.Flows.Errors.{
  FlowError, bundle_error, outside_region, no_writable_slot, outside_window, wrong_base,
  erase_needs_range, zero_length, unaligned_range,
}

-- `base` and the ends are u32 values added in u64.
unfoldable pub check_in_region : DeviceInfo → ℕ → ℕ → Result FlowError (Unit {0})
check_in_region info base len =
    bail_if (ltb base info.app_start || ltb info.app_end (base + len))
      (outside_region base (base + len))

unfoldable pub write_window : DeviceInfo → Result FlowError (ℕ × ℕ)
write_window info =
    if info.write_capacity == 0
    then err (no_writable_slot info.write_slot info.app_end)
    else ok (info.write_base, info.write_base + info.write_capacity)

unfoldable pub check_in_write_window : DeviceInfo → ℕ → ℕ → Result FlowError (Unit {0})
unfolding write_window
check_in_write_window info base len =
    if info.write_capacity == 0
    then err (no_writable_slot info.write_slot info.app_end)
    else bail_if
        (ltb base info.write_base || ltb (info.write_base + info.write_capacity) (base + len))
        (outside_window base (base + len))

unfoldable pub check_committable : DeviceInfo → Image → Result FlowError (Unit {0})
unfolding check_in_write_window
check_committable info image =
    if not (image.base == info.write_base)
    then err (wrong_base image.base info.write_base)
    else check_in_write_window info image.base (length image.bytes)

unfoldable pub write_chunk_len : DeviceInfo → ℕ
write_chunk_len info = info.max_write_data

pub record FlashOpts : Type 0 where
  pub force : Bool
  pub verify : Bool
  pub boot : Bool

pub data VerifyPlan : Type 0 where
  skipped commit_only commit_plus_live_crc : VerifyPlan

pub record FlashPlan : Type 0 where
  pub len : ℕ
  pub block : ℕ
  pub blocks : ℕ
  pub erase_len : ℕ
  pub crc : ℕ
  pub chunk : ℕ
  pub writes : ℕ
  pub verify : VerifyPlan
  pub boot : Bool

unfoldable pub plan_verify : DeviceInfo → FlashOpts → VerifyPlan
unfolding crc_live
plan_verify info opts =
    if not opts.verify
    then VerifyPlan.skipped
    else if crc_live info
    then VerifyPlan.commit_plus_live_crc
    else VerifyPlan.commit_only

unfoldable pub plan_flash : Crc32 → DeviceInfo → Image → FlashOpts → Result FlowError FlashPlan
unfolding check_committable check_in_write_window write_chunk_len plan_verify
plan_flash crc info image opts =
    let len = length image.bytes in
    let block = info.erase_block in
    let blocks = div_ceil (len % 2 ^ 32) block in
    let erase_len = blocks * block % 2 ^ 32 in
    let chunk = write_chunk_len info in
    let plan : FlashPlan = record {
      len = len;
      block = block;
      blocks = blocks;
      erase_len = erase_len;
      crc = crc32 crc image;
      chunk = chunk;
      writes = div_ceil len chunk;
      verify = plan_verify info opts;
      boot = opts.boot;
    } in
    do
      check_committable info image
      nonzero block
      check_in_write_window info image.base erase_len
      nonzero chunk
      ok plan

-- What `flash` and `bless` settle before the device is changed: the image for its write slot.
unfoldable pub choose : Source → DeviceInfo → Result FlowError Image
unfolding check_family image_for_base
choose source info =
    map_err bundle_error
      (do check_family source info.chip_family; image_for_base source info.write_base)

-- The range that `erase` is asked for.
unfoldable pub erase_range : DeviceInfo → Bool → Option ℕ → Option ℕ → Result FlowError (ℕ × ℕ)
unfolding write_window
erase_range info true s l = do
  (wbase, wend) ← write_window info
  ok (wbase, (wend - wbase) % 2 ^ 32)
erase_range info false (some s) (some l) = ok (s, l)
erase_range info false (some s) none = err erase_needs_range
erase_range info false none l = err erase_needs_range

unfoldable pub check_erase : DeviceInfo → ℕ → ℕ → Result FlowError (Unit {0})
unfolding write_window
check_erase info start len = do
  bail_if (len == 0) zero_length
  nonzero info.erase_block
  bail_if (not (start % info.erase_block == 0) || not (len % info.erase_block == 0))
      (unaligned_range start len info.erase_block)
  (wbase, wend) ← write_window info
  bail_if (ltb start wbase || ltb wend (start + len)) (outside_window start (start + len))

-- ===== src/Flows.antt =====
-- tools/src/flows.rs: flash, verify, erase, boot and bless, over the commands of the client. What is
-- printed is left out, and so are the texts that `context` puts in front of an error. A u32 that
-- the source adds or multiplies keeps its wrap-around.
pub mod Commands
pub mod Errors
pub mod Plan
pub mod Tiling
pub mod Window
pub mod Session
pub mod Checks
pub mod OverClient
pub mod Stepping
pub mod OnWire
pub mod Ending
pub mod Total
pub use Errors.*
unfoldable pub use Plan.*
use open_boot.Base.{
  ℕ, zero, suc, ◌+◌, ◌*◌, ◌-◌, ◌/◌, ◌%◌, ◌^◌, min, max, Bool, true, false, not, ◌&&◌, ◌||◌, List,
  [], ◌∷◌, Option, none, some, Result, ok, err, fault, bail_if, map_err, Bytes, length, take, drop,
  div_ceil, ltb, leb, ◌==◌, if◌then◌else◌,
}
use open_boot.Base.Actions.{Action, pure, raise, lift, and_then, ◌>>=◌, ◌>>◌}
use open_boot.Proto.Consts.{e_verify, det_verify_mismatch}
use open_boot.Proto.Crc32.{Crc32}
use open_boot.Proto.Status.{DeviceError}
use open_boot.Proto.DeviceInfo.{DeviceInfo, crc_live}
use open_boot.Image.{Image, crc32}
use open_boot.Bundle.Source.{Source, check_family, image_for_base, for_running_image}
use open_boot.Client.Errors.{ClientError, device, BootMode}
use open_boot.Flows.Commands.{Device}

abbrev pub erase_chunk : ℕ
erase_chunk = 32 * 1024

-- The outcome of COMMIT: a mismatch that the device found is a `VerifyMismatch`.
unfoldable pub map_commit_mismatch : ClientError → ℕ → FlowError
map_commit_mismatch (device name e) local_crc =
    if e.status == e_verify && is_mismatch e.detail
    then verify_mismatch local_crc none
    else client_error (device name e)
map_commit_mismatch e local_crc = client_error e

module _ (d : Device) where
  -- A command of the client, whose error becomes one of the flow.
  abbrev pub call : {A : Type 0} → Action d.State ClientError A → Action d.State FlowError A
  call m s = (map_err client_error (m s).0, (m s).1)

  -- The `while` loop of `erase_region`, with fuel for the rounds.
  unfoldable pub erase_loop : ℕ → ℕ → ℕ → ℕ → ℕ → ℕ → Action d.State FlowError (Unit {0})
  erase_loop zero start total block chunk_len done s = (fault, s)
  erase_loop (suc n) start total block chunk_len done s =
      let len = min chunk_len (total - done) in
      elim (ltb done total) [
        | false ↦ (ok tt, s)
        | true ↦
            (call (d.erase ((start + done) % 2 ^ 32) len (div_ceil len block))
                >> erase_loop n start total block chunk_len (done + len))
              s
      ]

  unfoldable pub erase_region : ℕ → ℕ → ℕ → Action d.State FlowError (Unit {0})
  unfolding erase_loop
  erase_region start total block =
      let blocks_per_chunk = max (erase_chunk / block) 1 in
      erase_loop (suc total) start total block (blocks_per_chunk * block) 0

  -- The `while` loop that writes the image, by what is left of it; `off` is `off` of the source.
  unfoldable pub write_loop : ℕ → ℕ → ℕ → ℕ → Bytes → Action d.State FlowError (Unit {0})
  write_loop zero base chunk off rest s = (fault, s)
  write_loop (suc n) base chunk off [] s = (ok tt, s)
  write_loop (suc n) base chunk off (b ∷ rest) s =
      (call (d.write ((base + off % 2 ^ 32) % 2 ^ 32) (take chunk (b ∷ rest)))
          >> write_loop n base chunk (off + min chunk (length (b ∷ rest))) (drop chunk (b ∷ rest)))
        s

  -- `if let Err(e) = client.commit(..) { return Err(map_commit_mismatch(e, ..)) }`
  unfoldable pub commit_image : ℕ → ℕ → Action d.State FlowError (Unit {0})
  unfolding map_commit_mismatch
  commit_image len crc s =
      (map_err (λ e. map_commit_mismatch e crc) (d.commit len crc s).0, (d.commit len crc s).1)

  unfoldable pub compare_crc : ℕ → ℕ → ℕ → Action d.State FlowError (Unit {0})
  compare_crc base len local = do
    device_crc ← call (d.crc base len)
    if not (device_crc == local) then raise (verify_mismatch local (some device_crc)) else pure tt

  -- The `match` on the plan for the check behind COMMIT.
  unfoldable pub check_written : VerifyPlan → ℕ → ℕ → ℕ → Action d.State FlowError (Unit {0})
  unfolding compare_crc
  check_written VerifyPlan.commit_plus_live_crc base len crc = compare_crc base (len % 2 ^ 32) crc
  check_written VerifyPlan.commit_only base len crc = pure tt
  check_written VerifyPlan.skipped base len crc = pure tt

  unfoldable pub leave : Bool → Action d.State FlowError (Unit {0})
  leave boot s =
      if boot
      then call (d.boot BootMode.app) s
      else if d.holds_in_bootloader s
      then (ok tt, s)
      else call (d.boot BootMode.stay) s

  unfoldable pub execute_flash : Image → FlashPlan → Action d.State FlowError (Unit {0})
  unfolding erase_region write_loop commit_image check_written leave
  execute_flash image p = do
    erase_region image.base p.erase_len p.block
    write_loop (suc p.len) image.base p.chunk 0 image.bytes
    commit_image (p.len % 2 ^ 32) p.crc
    check_written p.verify image.base p.len p.crc
    leave p.boot

  module _ (crc : Crc32) where
    unfoldable pub flash : Source → FlashOpts → Action d.State FlowError (Unit {0})
    unfolding choose plan_flash execute_flash
    flash source opts = do
      info ← call d.hello
      image ← lift (choose source info)
      plan ← lift (plan_flash crc info image opts)
      if not opts.force then pure tt else execute_flash image plan

    unfoldable pub verify : Source → Action d.State FlowError (Unit {0})
    unfolding check_family for_running_image check_in_region compare_crc
    verify source = do
      info ← call d.hello
      lift (map_err bundle_error (check_family source info.chip_family))
      image ← lift (map_err bundle_error (for_running_image source info.write_base))
      lift (check_in_region info image.base (length image.bytes))
      compare_crc image.base (length image.bytes % 2 ^ 32) (crc32 crc image)

    unfoldable pub bless : Source → Action d.State FlowError (Unit {0})
    unfolding choose check_committable commit_image
    bless source = do
      info ← call d.hello
      image ← lift (choose source info)
      lift (check_committable info image)
      commit_image (length image.bytes % 2 ^ 32) (crc32 crc image)

  unfoldable pub erase : Bool → Option ℕ → Option ℕ → Bool → Action d.State FlowError (Unit {0})
  unfolding erase_range check_erase erase_region
  erase all s l force = do
    info ← call d.hello
    (start, len) ← lift (erase_range info all s l)
    lift (check_erase info start len)
    if not force then pure tt else erase_region start len info.erase_block

  unfoldable pub boot : Bool → Action d.State FlowError (Unit {0})
  boot stay = do info ← call d.hello; call (d.boot (if stay then BootMode.stay else BootMode.app))

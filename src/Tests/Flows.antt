-- ===== src/Tests/Flows.antt =====
-- The theorems of the flows on a device that accepts everything.
use open_boot.Base.{
  ◌+◌, ◌^◌, ◌≤◌, ◌<◌, ◌≡◌, refl, subst, true, false, List, [], ◌∷◌, ◌++◌, Result, ok, ◌%◌, some,
  length, arith,
}
use open_boot.Proto.DeviceInfo.{DeviceInfo, IsUsable, crc_live}
use open_boot.Image.{Image, crc32}
use open_boot.Bundle.Source.{Source}
use open_boot.Client.Errors.{ClientError}
use open_boot.Flows.{FlashOpts, FlashPlan, VerifyPlan, plan_flash, choose, flash, erase, verify}
use open_boot.Flows.Commands.{Device, Call}
use open_boot.Flows.Window.{Keeps, plan_flash-fits}
use open_boot.Flows.Session.{flash-InWindow, flash_dry}
use open_boot.Flows.Checks.{Runs, erase-InWindow, verify-ok}
use open_boot.Client.{Client}
use open_boot.Flows.OverClient.{over_client}
use open_boot.Flows.OnWire.{OnWire, flash-OnWire}
use open_boot.Tests.Instances.{script, sum_crc}
use open_boot.Tests.Proto.{two_slots, two_slots-IsUsable}
use open_boot.Tests.Bundle.{high}

pub answered-IsUsable :
    (info : DeviceInfo)
    → (let r : Result ClientError DeviceInfo = ok two_slots in r) ≡ ok info
    → IsUsable info
answered-IsUsable info e = subst IsUsable (cc) two_slots-IsUsable

-- Every command succeeds, and the log is the state.
abbrev willing : Device
willing = record {
  State = List Call;
  issued = λ s. s;
  holds_in_bootloader = λ s. true;
  hello = λ s. (ok two_slots, s ++ (Call.hello ∷ []));
  erase = λ a l b s. (ok tt, s ++ (Call.erase a l b ∷ []));
  write = λ a bs s. (ok tt, s ++ (Call.write a bs ∷ []));
  commit = λ l c s. (ok tt, s ++ (Call.commit l c ∷ []));
  crc = λ a l s. (ok (crc32 sum_crc high), s ++ (Call.crc a l ∷ []));
  boot = λ m s. (ok tt, s ++ (Call.boot m ∷ []));
  issued-hello = λ s. refl;
  issued-erase = λ a l b s. refl;
  issued-write = λ a bs s. refl;
  issued-commit = λ l c s. refl;
  issued-crc = λ a l s. refl;
  issued-boot = λ m s. refl;
  hello-IsUsable = λ s info e. answered-IsUsable info e;
}

abbrev opts : FlashOpts
opts = record { force = true; verify = true; boot = true }

abbrev plan : FlashPlan
plan = record {
  len = 8;
  block = 4096;
  blocks = 1;
  erase_len = 4096;
  crc = crc32 sum_crc high;
  chunk = 48;
  writes = 1;
  verify = VerifyPlan.commit_only;
  boot = true;
}

planned : plan_flash sum_crc two_slots high opts ≡ ok plan
unfolding plan_flash crc_live
planned = refl

plan_flash-fits_example :
    (high.base ≡ two_slots.write_base)
    × (plan.len ≡ length high.bytes)
    × (length high.bytes ≤ plan.erase_len)
    × (plan.erase_len < length high.bytes + two_slots.erase_block)
    × (two_slots.write_base + plan.erase_len ≤ two_slots.write_base + two_slots.write_capacity)
plan_flash-fits_example =
    plan_flash-fits sum_crc two_slots high opts plan two_slots-IsUsable (omega arith) (omega arith)
      planned

one_image :
    (image : Image)
    → choose (Source.single high) two_slots ≡ ok image
    → length image.bytes + two_slots.erase_block ≤ 2 ^ 32
unfolding choose
one_image image e =
    let same : high ≡ image = cc in
    subst (λ i. length i.bytes + two_slots.erase_block ≤ 2 ^ 32) same (omega arith)

flash-InWindow_example :
    Keeps willing 0xa000 (0xa000 + 0x8000) (flash willing sum_crc (Source.single high) opts) []
flash-InWindow_example =
    flash-InWindow willing sum_crc (Source.single high) opts [] two_slots refl (omega arith)
      one_image

flash_dry_example :
    willing.issued (flash willing sum_crc (Source.single high) (record opts { force = false }) []).1
    ≡ [] ++ (Call.hello ∷ [])
flash_dry_example =
    flash_dry willing sum_crc (Source.single high) (record opts { force = false }) [] refl

erase-InWindow_example :
    Keeps willing 0xa000 (0xa000 + 0x8000) (erase willing false (some 0xa000) (some 0x1000) true) []
erase-InWindow_example =
    erase-InWindow willing false (some 0xa000) (some 0x1000) true [] two_slots refl (omega arith)

erased :
    (erase willing false (some 0xa000) (some 0x1000) true [])
    ≡ (ok tt, Call.hello ∷ Call.erase 0xa000 0x1000 1 ∷ [])
unfolding erase
erased = refl

verified : (verify willing sum_crc (Source.single high) []).0 ≡ ok tt
unfolding verify crc32
verified = refl

verify-ok_example :
    (info : DeviceInfo) × (image : Image) × ((let r : Result ClientError DeviceInfo =
          ok two_slots in
        r)
      ≡ ok info)
    × Runs willing info.chip_family info.write_base (Source.single high) image
    × (info.app_start ≤ image.base)
    × (image.base + length image.bytes ≤ info.app_end)
    × ((willing.crc image.base (length image.bytes % 2 ^ 32) (Call.hello ∷ [])).0
        ≡ ok (sum_crc.hash image.bytes))
verify-ok_example = verify-ok willing sum_crc (Source.single high) [] verified

-- A client whose device never answers.
abbrev alone : Client script × List Call
alone = (record { transport = record { clock = 0; incoming = []; log = [] }; seq = 0 }, [])

flash-OnWire_example :
    OnWire sum_crc script [] []
      (flash (over_client sum_crc script) sum_crc (Source.single high) opts alone).1
flash-OnWire_example = flash-OnWire sum_crc script (Source.single high) opts alone

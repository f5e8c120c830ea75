-- ===== src/Tests/Hid.antt =====
-- A HID device that accepts every report, a list of devices, and the runs of the theorems on them.
use open_boot.Base.{
  ℕ, ◌+◌, ◌<◌, ◌≡◌, ◌≢◌, ◌⊎◌, refl, List, [], ◌∷◌, ◌++◌, Among, none, Result, ok, fault, Bytes,
  length, arith,
}
use open_boot.Proto.Consts.{max_frame}
use open_boot.Proto.Frame
use open_boot.Proto.Frame.RoundTrip.{wire}
use open_boot.Transport.{IoError}
use open_boot.Transport.Hid.{HidDevice, DeviceInfo, ob_usage, select, send_frame}
use open_boot.Transport.Hid.Selection.{HasId, select-ok}
use open_boot.Transport.Hid.Reports.{send_frame-decode}
use open_boot.Tests.Instances.{sum_crc}
use open_boot.Tests.Proto.{request}

-- The clock, the reports that will arrive, and those that were written.
record Plug : Type 0 where
  clock : ℕ
  incoming : List Bytes
  log : List Bytes

abbrev plug_next : ℕ → ℕ → List Bytes → List Bytes → Result IoError Bytes × Plug
plug_next wait clock [] log = (ok [], record { clock = clock + wait; incoming = []; log = log })
plug_next wait clock (r ∷ rs) log = (ok r, record { clock = clock; incoming = rs; log = log })

plug_next-ne-fault : (w c : ℕ) (q l : List Bytes) → (plug_next w c q l).0 ≢ fault
plug_next-ne-fault w c [] l e = cc
plug_next-ne-fault w c (b ∷ q) l e = cc

plug_next-log : (w c : ℕ) (q l : List Bytes) → (plug_next w c q l).1.log ≡ l
plug_next-log w c [] l = refl
plug_next-log w c (b ∷ q) l = refl

plug_next-fewer :
    (w c : ℕ) (q l : List Bytes) (b : ℕ) (bs : Bytes)
    → (plug_next w c q l).0 ≡ ok (b ∷ bs)
    → length (plug_next w c q l).1.incoming < length q
plug_next-fewer w c [] l b bs e = cc
plug_next-fewer w c (r ∷ q) l b bs e = omega arith

abbrev plug : HidDevice
plug = record {
  State = Plug;
  now = λ s. s.clock;
  write = λ report s. (ok tt, record s { log = s.log ++ (report ∷ []) });
  read_timeout = λ wait s. plug_next wait s.clock s.incoming s.log;
  written = λ s. s.log;
  budget = λ d s. length s.incoming;
  write-ne-fault = λ report s e. cc;
  read-ne-fault = λ wait s. plug_next-ne-fault wait s.clock s.incoming s.log;
  written-write = λ report s. refl;
  written-read = λ wait s. plug_next-log wait s.clock s.incoming s.log;
  budget-read = λ d wait s b bs early e. plug_next-fewer wait s.clock s.incoming s.log b bs e;
}

abbrev idle_plug : Plug
idle_plug = record { clock = 0; incoming = []; log = [] }

send_frame-decode_example :
    (report : Bytes) × (length report ≡ max_frame)
    × ((send_frame plug (wire sum_crc request) idle_plug).1.log ≡ [] ++ ((0 ∷ report) ∷ []))
    × (Frame.decode sum_crc report ≡ ok request)
send_frame-decode_example = send_frame-decode plug sum_crc request idle_plug (omega arith)

abbrev bootloader : DeviceInfo
bootloader = record {
  vendor_id = 0x1209;
  product_id = 1;
  serial_number = none;
  usage_page = 0xff00;
  usage = 1;
  path = b'a' ∷ [];
}

-- The bootloader, between a keyboard with the same IDs and another device.
abbrev devices : List DeviceInfo
devices =
    record bootloader { usage_page = 1; usage = 6; path = b'b' ∷ [] }
    ∷ bootloader
    ∷ record bootloader { vendor_id = 7 }
    ∷ []

chosen : select 0x1209 1 none ob_usage devices ≡ ok bootloader
unfolding select
chosen = refl

select-ok_example :
    Among bootloader devices
    × HasId 0x1209 1 none bootloader
    × (((bootloader.usage_page ≡ 0xff00)
          × (bootloader.usage ≡ 1)
          × ((d : DeviceInfo)
              → Among d devices
              → HasId 0x1209 1 none d
              → d.usage_page ≡ 0xff00
              → d.usage ≡ 1
              → d.path ≡ b'a' ∷ []))
        ⊎ ((bootloader.usage_page ≡ 0)
            × (bootloader.usage ≡ 0)
            × ((d : DeviceInfo)
                → Among d devices
                → HasId 0x1209 1 none d
                → d.usage_page ≡ 0xff00
                → d.usage ≡ 1
                → ⊥)
            × ((d : DeviceInfo)
                → Among d devices
                → HasId 0x1209 1 none d
                → d.usage_page ≡ 0
                → d.usage ≡ 0
                → d.path ≡ b'a' ∷ [])))
select-ok_example = select-ok 0x1209 1 none ob_usage devices bootloader chosen

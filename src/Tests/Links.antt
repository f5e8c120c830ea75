-- ===== src/Tests/Links.antt =====
-- A serial port and a keyboard that play what will arrive, and the runs of the theorems of the two
-- transports on them.
use open_boot.Base.{
  ℕ, ◌+◌, ◌-◌, ◌≡◌, ◌≢◌, refl, sym, true, false, [], ◌∷◌, ◌++◌, append-nil, Option, none, some,
  Result, ok, err, fault, Bytes, arith,
}
use open_boot.Proto.Frame.RoundTrip.{wire}
use open_boot.Transport.{IoError, io, xfer}
use open_boot.Transport.Framing.{encode_sof}
use open_boot.Transport.Uart.{SerialPort, ReadError, write_plan}
use open_boot.Transport.Uart.Plan.{IsPlan, write_plan-IsPlan}
use open_boot.Transport.Uart.Source.{uart}
use open_boot.Transport.Uart.Exchange.{xfer-written}
use open_boot.Tests.Instances.{sum_crc}
use open_boot.Tests.Proto.{request}

-- The clock, the bytes that will arrive, and those that were written.
record Desk : Type 0 where
  clock : ℕ
  incoming : Bytes
  log : Bytes

abbrev desk_next : ℕ → Bytes → Bytes → Result ReadError (Option ℕ) × Desk
desk_next clock [] log = (ok none, record { clock = clock + 1; incoming = []; log = log })
desk_next clock (b ∷ bs) log = (ok (some b), record { clock = clock + 1; incoming = bs; log = log })

desk_next-ne-fault : (c : ℕ) (q l : Bytes) → (desk_next c q l).0 ≢ fault
desk_next-ne-fault c [] l e = cc
desk_next-ne-fault c (b ∷ q) l e = cc

desk_next-log : (c : ℕ) (q l : Bytes) → (desk_next c q l).1.log ≡ l
desk_next-log c [] l = refl
desk_next-log c (b ∷ q) l = refl

desk_next-clock : (c : ℕ) (q l : Bytes) → (desk_next c q l).1.clock ≡ c + 1
desk_next-clock c [] l = refl
desk_next-clock c (b ∷ q) l = refl

abbrev desk : SerialPort
desk = record {
  State = Desk;
  now = λ s. s.clock;
  set_timeout = λ wait s. (ok tt, s);
  read_one = λ s. desk_next s.clock s.incoming s.log;
  write_all = λ bytes s. (ok tt, record s { log = s.log ++ bytes });
  flush = λ s. (ok tt, s);
  sleep = λ micros s. s;
  written = λ s. s.log;
  budget = λ d s. d - s.clock;
  set_timeout-ne-fault = λ wait s e. cc;
  read_one-ne-fault = λ s. desk_next-ne-fault s.clock s.incoming s.log;
  write_all-ne-fault = λ bytes s e. cc;
  flush-ne-fault = λ s e. cc;
  written-set_timeout = λ wait s. refl;
  written-flush = λ s. refl;
  written-sleep = λ micros s. refl;
  written-read_one = λ s. desk_next-log s.clock s.incoming s.log;
  written-write_all = λ bytes s e. refl;
  written-write_all_front = λ bytes s. (bytes, [], sym (append-nil bytes), refl);
  now-set_timeout = λ wait s. refl;
  budget-set_timeout = λ d wait s. refl;
  read_one-budget = λ d s b h e. omega (arith, desk_next-clock s.clock s.incoming s.log);
  read_one-budget_le = λ d s h. omega (arith, desk_next-clock s.clock s.incoming s.log);
}

abbrev idle_desk : Desk
idle_desk = record { clock = 3; incoming = []; log = 1 ∷ [] }

write_plan-IsPlan_example : IsPlan 37 (write_plan 37 (some 16))
write_plan-IsPlan_example = write_plan-IsPlan 37 (some 16) (omega arith) (λ e. cc)

long_plan : write_plan 37 (some 16) ≡ (16, true) ∷ (16, true) ∷ (5, false) ∷ []
unfolding write_plan
long_plan = refl

xfer-written_example :
    (front : Bytes) × (back : Bytes) × (encode_sof (wire sum_crc request) ≡ front ++ back)
    × ((xfer sum_crc (uart desk none) request 40 (idle_desk, [])).1.0.log ≡ (1 ∷ []) ++ front)
    × (((e : IoError) → (xfer sum_crc (uart desk none) request 40 (idle_desk, [])).0 ≢ err (io e))
        → back ≡ [])
xfer-written_example = xfer-written desk none sum_crc request 40 idle_desk [] (omega arith)

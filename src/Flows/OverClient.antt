-- ===== src/Flows/OverClient.antt =====
-- The client of tools/src/client.rs as the device of the flows, with a log of the calls beside it.
use open_boot.Base.{refl, List, [], ◌∷◌, ◌++◌}
use open_boot.Base.Actions.{Action}
use open_boot.Proto.Crc32.{Crc32}
use open_boot.Transport.{Transport}
use open_boot.Client
use open_boot.Client.{Client, ClientError}
use open_boot.Client.Outcome.{hello-IsUsable}
use open_boot.Flows.Commands.{Device, Call}

module _ (crc : Crc32) (t : Transport) where
  -- The call is put in the log, and the client's method runs.
  abbrev pub logged :
      {A : Type 0}
      → Call
      → Action (Client t) ClientError A
      → Action (Client t × List Call) ClientError A
  logged call m (c, log) = ((m c).0, ((m c).1, log ++ (call ∷ [])))

  abbrev pub over_client : Device
  over_client = record {
    State = Client t × List Call;
    issued = λ s. s.1;
    holds_in_bootloader = λ s. Client.holds_in_bootloader t s.0;
    hello = logged Call.hello (Client.hello crc t);
    erase = λ a l b. logged (Call.erase a l b) (Client.erase crc t a l b);
    write = λ a bs. logged (Call.write a bs) (Client.write crc t a bs);
    commit = λ l c. logged (Call.commit l c) (Client.commit crc t l c);
    crc = λ a l. logged (Call.crc a l) (Client.crc_of crc t a l);
    boot = λ m. logged (Call.boot m) (Client.boot crc t m);
    issued-hello = λ s. refl;
    issued-erase = λ a l b s. refl;
    issued-write = λ a bs s. refl;
    issued-commit = λ l c s. refl;
    issued-crc = λ a l s. refl;
    issued-boot = λ m s. refl;
    hello-IsUsable = λ s info e. (hello-IsUsable crc t s.0 info e).1;
  }

-- ===== src/Flows/Commands.antt =====
-- The commands that the flows use, as an interface: `BootClient` of tools/src/client.rs, seen from
-- tools/src/flows.rs.
use open_boot.Base.{ℕ, ◌≡◌, Bool, List, [], ◌∷◌, ◌++◌, ok, Bytes}
use open_boot.Base.Actions.{Action}
use open_boot.Proto.DeviceInfo.{DeviceInfo, IsUsable}
use open_boot.Client.Errors.{ClientError, BootMode}

-- A call of a command, whatever comes of it.
pub data Call : Type 0 where
  hello : Call
  erase : ℕ → ℕ → ℕ → Call
  write : ℕ → Bytes → Call
  commit : ℕ → ℕ → Call
  crc : ℕ → ℕ → Call
  boot : BootMode → Call

-- `issued` is no part of the client: it is the calls made so far.
pub record Device : Type 1 where
  pub State : Type 0
  pub issued : State → List Call
  pub holds_in_bootloader : State → Bool
  pub hello : Action State ClientError DeviceInfo
  pub erase : ℕ → ℕ → ℕ → Action State ClientError (Unit {0})
  pub write : ℕ → Bytes → Action State ClientError (Unit {0})
  pub commit : ℕ → ℕ → Action State ClientError (Unit {0})
  pub crc : ℕ → ℕ → Action State ClientError ℕ
  pub boot : BootMode → Action State ClientError (Unit {0})
  pub issued-hello : (s : State) → issued (hello s).1 ≡ issued s ++ (Call.hello ∷ [])
  pub issued-erase :
      (a l b : ℕ) (s : State) → issued (erase a l b s).1 ≡ issued s ++ (Call.erase a l b ∷ [])
  pub issued-write :
      (a : ℕ) (bs : Bytes) (s : State)
      → issued (write a bs s).1 ≡ issued s ++ (Call.write a bs ∷ [])
  pub issued-commit :
      (l c : ℕ) (s : State) → issued (commit l c s).1 ≡ issued s ++ (Call.commit l c ∷ [])
  pub issued-crc : (a l : ℕ) (s : State) → issued (crc a l s).1 ≡ issued s ++ (Call.crc a l ∷ [])
  pub issued-boot :
      (m : BootMode) (s : State) → issued (boot m s).1 ≡ issued s ++ (Call.boot m ∷ [])
  pub hello-IsUsable : (s : State) (info : DeviceInfo) → (hello s).0 ≡ ok info → IsUsable info

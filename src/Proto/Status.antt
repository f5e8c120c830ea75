-- ===== src/Proto/Status.antt =====
-- tools/src/proto/mod.rs: `DeviceError`, the status and detail bytes of an answer.
use open_boot.Base.{ℕ, [], ◌∷◌, Option, none, some, Bytes, ◌==◌, if◌then◌else◌}
use open_boot.Proto.Consts.{ok as status_ok}

pub record DeviceError : Type 0 where
  pub status : ℕ
  pub detail : Option ℕ

-- `slice.first().copied()`
abbrev pub first : Bytes → Option ℕ
first [] = none
first (b ∷ bs) = some b

unfoldable pub from_payload : Bytes → Option DeviceError
from_payload [] = none
from_payload (status ∷ rest) =
    if status == status_ok then none else some (record { status = status; detail = first rest })

-- ===== src/Proto/Crc32.antt =====
-- The checksum function `crc32fast::hash`, which the program takes from a third-party crate. All
-- that is assumed of it is that it is a function of the bytes and returns a u32.
use open_boot.Base.{ℕ, Bytes, IsU32}

pub record Crc32 : Type 0 where
  pub hash : Bytes → ℕ
  pub hash-IsU32 : (bs : Bytes) → IsU32 (hash bs)

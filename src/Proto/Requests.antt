-- ===== src/Proto/Requests.antt =====
-- tools/src/proto/mod.rs: the payload of each request, and the value in the answer to CRC.
use open_boot.Base.{
  ℕ, ◌≤◌, ◌≡◌, [], ◌∷◌, ◌++◌, Result, ok, err, Bytes, length, get_or, ltb, if◌then◌else◌, u32_le,
  u32_of, IsU32, u32_of-u32_le, arith, within,
}
use open_boot.Proto.Consts.{hello_magic, max_payload, max_write_data}

unfoldable pub hello_req_payload : ℕ → ℕ → Bytes
hello_req_payload host_major host_minor = u32_le hello_magic ++ (host_major ∷ host_minor ∷ [])

unfoldable pub erase_req_payload : ℕ → ℕ → Bytes
erase_req_payload addr len = u32_le addr ++ u32_le len

unfoldable pub write_req_payload : ℕ → Bytes → Bytes
write_req_payload addr bytes = u32_le addr ++ bytes

unfoldable pub crc_req_payload : ℕ → ℕ → Bytes
unfolding erase_req_payload
crc_req_payload addr len = erase_req_payload addr len

unfoldable pub commit_req_payload : ℕ → ℕ → Bytes
commit_req_payload img_len img_crc32 = u32_le img_len ++ u32_le img_crc32

unfoldable pub boot_req_payload : ℕ → Bytes
boot_req_payload mode = mode ∷ []

-- The error carries the length of the payload that is too short.
unfoldable pub crc_resp_value : Bytes → Result ℕ ℕ
crc_resp_value payload =
    if ltb (length payload) 5
    then err (length payload)
    else within 5 payload (
        ok (
          u32_of (get_or payload 1 0) (get_or payload 2 0) (get_or payload 3 0)
            (get_or payload 4 0)))

-- An answer `[status, crc32 LE]`, with anything behind it, gives the checksum back.
pub crc_resp_value-u32_le :
    (status crc : ℕ) (more : Bytes)
    → IsU32 crc
    → crc_resp_value (status ∷ (u32_le crc ++ more)) ≡ ok crc
unfolding crc_resp_value
crc_resp_value-u32_le status crc more h = ground (arith, u32_of-u32_le crc)

pub write_req_payload_fits :
    (addr : ℕ) (bytes : Bytes)
    → length bytes ≤ max_write_data
    → length (write_req_payload addr bytes) ≤ max_payload
unfolding write_req_payload
write_req_payload_fits addr bytes h = omega arith

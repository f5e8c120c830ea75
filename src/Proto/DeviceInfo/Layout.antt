-- ===== src/Proto/DeviceInfo/Layout.antt =====
-- The payload of the answer to HELLO as docs/PROTOCOL.md lays it out, written from the fields.
use open_boot.Base.{
  ℕ, ◌/◌, ◌%◌, ◌^◌, ◌≤◌, ◌≡◌, ap, ◌∙◌, [], ◌∷◌, ◌++◌, ok, Bytes, IsU16, IsU32, IsU64, length, arith,
  u16_le, u32_le,
}
use open_boot.Proto.Consts.{hello_resp_len}
use open_boot.Proto.DeviceInfo.{DeviceInfo, IsUsable, read_fields, parse}
use open_boot.Proto.DeviceInfo.Parse.{parse_accepts}

pub record InRange (info : DeviceInfo) : Type 0 where
  pub bl_version : IsU16 info.bl_version
  pub app_start : IsU32 info.app_start
  pub app_end : IsU32 info.app_end
  pub erase_block : IsU32 info.erase_block
  pub write_page : IsU16 info.write_page
  pub features : IsU32 info.features
  pub uid : IsU64 info.uid
  pub write_base : IsU32 info.write_base
  pub write_capacity : IsU32 info.write_capacity

-- A status byte, the fields in order, and one reserved byte before the write window.
unfoldable pub hello_payload : ℕ → ℕ → DeviceInfo → Bytes
hello_payload status reserved info =
    (status ∷ info.proto_major ∷ info.proto_minor ∷ info.chip_rev ∷ [])
    ++ (u16_le info.bl_version
        ++ ((info.chip_family ∷ info.transport ∷ [])
            ++ (u32_le info.app_start
                ++ (u32_le info.app_end
                    ++ (u32_le info.erase_block
                        ++ (u16_le info.write_page
                            ++ ((info.write_align ∷ info.max_write_data ∷ [])
                                ++ (u32_le info.features
                                    ++ (u32_le (info.uid % 2 ^ 32)
                                        ++ (u32_le (info.uid / 2 ^ 32)
                                            ++ ((info.slot_count ∷ info.active_slot
                                                  ∷ info.write_slot ∷ reserved ∷ [])
                                                ++ (u32_le info.write_base
                                                    ++ u32_le info.write_capacity))))))))))))

read_fields-hello_payload :
    (status reserved : ℕ) (info : DeviceInfo) (more : Bytes)
    → InRange info
    → read_fields (hello_payload status reserved info ++ more) ≡ info
unfolding read_fields hello_payload
read_fields-hello_payload status reserved info more r = ground arith

length-hello_payload :
    (status reserved : ℕ) (info : DeviceInfo) (more : Bytes)
    → hello_resp_len ≤ length (hello_payload status reserved info ++ more)
unfolding hello_payload
length-hello_payload status reserved info more = omega arith

-- A usable device description whose fields fit their widths comes back from the payload that
-- reports it, whatever the status and reserved bytes are and whatever follows the 48 bytes.
pub parse-hello_payload :
    (status reserved : ℕ) (info : DeviceInfo) (more : Bytes)
    → InRange info
    → IsUsable info
    → parse (hello_payload status reserved info ++ more) ≡ ok info
parse-hello_payload status reserved info more r u =
    let fields = read_fields-hello_payload status reserved info more r in
    parse_accepts _ (length-hello_payload status reserved info more) (rw fields u) ∙ ap ok fields

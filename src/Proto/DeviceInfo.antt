-- ===== src/Proto/DeviceInfo.antt =====
-- tools/src/proto/device_info.rs: the device's answer to HELLO. `read_fields` is the struct literal
-- of `parse`, at the offsets of the payload, of which the last is 47, and `check` the guards behind it.
pub mod Parse
pub mod Layout
use open_boot.Base.{
  ℕ, ◌+◌, ◌*◌, ◌^◌, ◌%◌, ◌≤◌, ◌<◌, ◌≢◌, ◌≡◌, ◌⊎◌, Bool, not, ◌&&◌, ◌||◌, Option, none, some, Result,
  ok, err, Bytes, length, get_or, slice, ltb, leb, ◌==◌, if◌then◌else◌, u32_of, bit_and, within,
}
use open_boot.Proto.Consts.{
  hello_resp_len, max_write_data, slot_id_none, feat_crc_live, family_ch570, family_ch572,
  family_ch591, family_ch592,
}

pub record DeviceInfo : Type 0 where
  pub proto_major : ℕ
  pub proto_minor : ℕ
  pub chip_rev : ℕ
  pub bl_version : ℕ
  pub chip_family : ℕ
  pub transport : ℕ
  pub app_start : ℕ
  pub app_end : ℕ
  pub erase_block : ℕ
  pub write_page : ℕ
  pub write_align : ℕ
  pub max_write_data : ℕ
  pub features : ℕ
  pub uid : ℕ
  pub slot_count : ℕ
  pub active_slot : ℕ
  pub write_slot : ℕ
  pub write_base : ℕ
  pub write_capacity : ℕ

pub data InfoError : Type 0 where
  short_payload : ℕ → InfoError
  inverted_region : ℕ → ℕ → InfoError
  zero_erase_block : InfoError
  zero_write_align : InfoError
  unusable_max_write : ℕ → InfoError
  max_write_above_limit : ℕ → InfoError
  zero_slots : InfoError
  bad_write_slot : ℕ → ℕ → InfoError
  bad_active_slot : ℕ → ℕ → InfoError
  window_outside : ℕ → ℕ → InfoError

unfoldable pub le16 : Bytes → ℕ
le16 b = get_or b 0 0 + get_or b 1 0 * 2 ^ 8

unfoldable pub le32 : Bytes → ℕ
le32 b = u32_of (get_or b 0 0) (get_or b 1 0) (get_or b 2 0) (get_or b 3 0)

unfoldable pub le64 : Bytes → ℕ
le64 b =
    u32_of (get_or b 0 0) (get_or b 1 0) (get_or b 2 0) (get_or b 3 0)
    + u32_of (get_or b 4 0) (get_or b 5 0) (get_or b 6 0) (get_or b 7 0) * 2 ^ 32

unfoldable pub read_fields : Bytes → DeviceInfo
unfolding le16 le32 le64
read_fields payload = record {
  proto_major = get_or payload 1 0;
  proto_minor = get_or payload 2 0;
  chip_rev = get_or payload 3 0;
  bl_version = le16 (slice payload 4 6);
  chip_family = get_or payload 6 0;
  transport = get_or payload 7 0;
  app_start = le32 (slice payload 8 12);
  app_end = le32 (slice payload 12 16);
  erase_block = le32 (slice payload 16 20);
  write_page = le16 (slice payload 20 22);
  write_align = get_or payload 22 0;
  max_write_data = get_or payload 23 0;
  features = le32 (slice payload 24 28);
  uid = le64 (slice payload 28 36);
  slot_count = get_or payload 36 0;
  active_slot = get_or payload 37 0;
  write_slot = get_or payload 38 0;
  write_base = le32 (slice payload 40 44);
  write_capacity = le32 (slice payload 44 48);
}

-- The sums of the last guard are taken in u64 and do not wrap.
unfoldable pub check : DeviceInfo → Result InfoError DeviceInfo
check info =
    if leb info.app_end info.app_start
    then err (inverted_region info.app_start info.app_end)
    else if info.erase_block == 0
    then err zero_erase_block
    else if info.write_align == 0
    then err zero_write_align
    else if info.max_write_data == 0 || not (info.max_write_data % 4 == 0)
    then err (unusable_max_write info.max_write_data)
    else if ltb max_write_data info.max_write_data
    then err (max_write_above_limit info.max_write_data)
    else if info.slot_count == 0
    then err zero_slots
    else if leb info.slot_count info.write_slot
    then err (bad_write_slot info.write_slot info.slot_count)
    else if not (info.active_slot == slot_id_none) && leb info.slot_count info.active_slot
    then err (bad_active_slot info.active_slot info.slot_count)
    else if ltb info.write_base info.app_start
        || ltb info.app_end (info.write_base + info.write_capacity)
    then err (window_outside info.write_base (info.write_base + info.write_capacity))
    else ok info

unfoldable pub parse : Bytes → Result InfoError DeviceInfo
unfolding check
parse payload =
    if ltb (length payload) hello_resp_len
    then err (short_payload (length payload))
    else within 48 payload (check (read_fields payload))

unfoldable pub has_feature : DeviceInfo → ℕ → Bool
has_feature info bit = not (bit_and info.features bit == 0)

unfoldable pub crc_live : DeviceInfo → Bool
unfolding has_feature
crc_live info = has_feature info feat_crc_live

-- The chip-id byte that goes with a family.
unfoldable pub expected_chip_rev : DeviceInfo → Option ℕ
expected_chip_rev info =
    if info.chip_family == family_ch570
    then some 0x70
    else if info.chip_family == family_ch572
    then some 0x72
    else if info.chip_family == family_ch591
    then some 0x91
    else if info.chip_family == family_ch592
    then some 0x92
    else none

-- The numbers that the warning names: the family, the chip id it should report, the one reported.
abbrev pub compare_rev : DeviceInfo → Option ℕ → Option (ℕ × ℕ × ℕ)
compare_rev info none = none
compare_rev info (some want) =
    if info.chip_rev == want then none else some (info.chip_family, want, info.chip_rev)

unfoldable pub variant_mismatch : DeviceInfo → Option (ℕ × ℕ × ℕ)
unfolding expected_chip_rev
variant_mismatch info = compare_rev info (expected_chip_rev info)

-- What the flows rely on: geometry that can be divided by, and a write window inside the region.
pub record IsUsable (info : DeviceInfo) : Type 0 where
  pub region : info.app_start < info.app_end
  pub block : 0 < info.erase_block
  pub align : 0 < info.write_align
  pub chunk : 0 < info.max_write_data
  pub chunk_words : info.max_write_data % 4 ≡ 0
  pub chunk_limit : info.max_write_data ≤ max_write_data
  pub slots : 0 < info.slot_count
  pub write_slot_known : info.write_slot < info.slot_count
  pub active_slot_known : (info.active_slot ≡ slot_id_none) ⊎ (info.active_slot < info.slot_count)
  pub window_start : info.app_start ≤ info.write_base
  pub window_end : info.write_base + info.write_capacity ≤ info.app_end

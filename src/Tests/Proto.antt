-- ===== src/Tests/Proto.antt =====
-- The theorems of the frame, the requests and the device description on concrete inputs.
use open_boot.Base.{◌≡◌, refl, inr, true, [], ◌∷◌, ◌++◌, ok, Bytes, All, IsByte, length, arith}
use open_boot.Proto.Frame
use open_boot.Proto.Frame.{Frame}
use open_boot.Proto.Frame.RoundTrip.{wire, decode-encode}
use open_boot.Proto.DeviceInfo
use open_boot.Proto.DeviceInfo.{DeviceInfo, IsUsable}
use open_boot.Proto.DeviceInfo.Layout.{InRange, hello_payload, parse-hello_payload}
use open_boot.Tests.Instances.{sum_crc}

abbrev pub request : Frame
request = record { cmd = 5; seq = 7; payload = 1 ∷ 2 ∷ [] }

abbrev pub response : Frame
response = record { cmd = 0x85; seq = 7; payload = 0 ∷ 9 ∷ [] }

decode-encode_example :
    (f : Frame) × (bytes : Bytes) × (Frame.new {E = ⊥} 5 7 (1 ∷ 2 ∷ []) ≡ ok f)
    × (Frame.encode sum_crc {E = ⊥} f ≡ ok bytes)
    × (length bytes ≡ Frame.wire_len f)
    × (Frame.decode sum_crc (bytes ++ (0 ∷ 0 ∷ [])) ≡ ok f)
decode-encode_example = decode-encode sum_crc 5 7 (1 ∷ 2 ∷ []) (0 ∷ 0 ∷ []) (omega arith)

abbrev received : Bytes
received = wire sum_crc response ++ (0 ∷ [])

received-IsByte : All IsByte received
received-IsByte = omega arith

received-decode : Frame.decode sum_crc received ≡ ok response
unfolding Frame.decode
received-decode = refl

matches : Frame.is_response_to response request ≡ true
unfolding Frame.is_response_to
matches = refl

-- A device with two slots, whose second slot is open for writing.
abbrev pub two_slots : DeviceInfo
two_slots = record {
  proto_major = 0;
  proto_minor = 2;
  chip_rev = 1;
  bl_version = 0x0100;
  chip_family = 1;
  transport = 1;
  app_start = 0x2000;
  app_end = 0x12000;
  erase_block = 4096;
  write_page = 256;
  write_align = 4;
  max_write_data = 48;
  features = 1;
  uid = 0x1122334455667788;
  slot_count = 2;
  active_slot = 0;
  write_slot = 1;
  write_base = 0xa000;
  write_capacity = 0x8000;
}

pub two_slots-IsUsable : IsUsable two_slots
two_slots-IsUsable = record {
  region = omega arith;
  block = omega arith;
  align = omega arith;
  chunk = omega arith;
  chunk_words = omega arith;
  chunk_limit = omega arith;
  slots = omega arith;
  write_slot_known = omega arith;
  active_slot_known = inr (omega arith);
  window_start = omega arith;
  window_end = omega arith;
}

two_slots-InRange : InRange two_slots
two_slots-InRange = record {
  bl_version = omega arith;
  app_start = omega arith;
  app_end = omega arith;
  erase_block = omega arith;
  write_page = omega arith;
  features = omega arith;
  uid = omega arith;
  write_base = omega arith;
  write_capacity = omega arith;
}

parse-hello_payload_example :
    DeviceInfo.parse (hello_payload 0 0 two_slots ++ (1 ∷ 2 ∷ [])) ≡ ok two_slots
parse-hello_payload_example =
    parse-hello_payload 0 0 two_slots (1 ∷ 2 ∷ []) two_slots-InRange two_slots-IsUsable

parse-two_slots : DeviceInfo.parse (hello_payload 0 0 two_slots) ≡ ok two_slots
unfolding DeviceInfo.parse hello_payload DeviceInfo.read_fields
parse-two_slots = refl

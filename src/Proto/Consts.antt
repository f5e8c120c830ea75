-- ===== src/Proto/Consts.antt =====
-- tools/src/proto/consts.rs: the constants of the wire protocol, generated from
-- protocol/openboot_protocol.h.
use Prim.Native.Nat.{ℕ}

abbrev pub proto_major : ℕ
proto_major = 0x0

abbrev pub proto_minor : ℕ
proto_minor = 0x2

abbrev pub frame_hdr_len : ℕ
frame_hdr_len = 0x4

abbrev pub frame_crc_len : ℕ
frame_crc_len = 0x4

abbrev pub frame_overhead : ℕ
frame_overhead = 0x8

abbrev pub max_payload : ℕ
max_payload = 0x38

abbrev pub max_frame : ℕ
max_frame = 0x40

abbrev pub max_write_data : ℕ
max_write_data = 0x30

abbrev pub uart_sof1 : ℕ
uart_sof1 = 0xb0

abbrev pub uart_sof2 : ℕ
uart_sof2 = 0x7

abbrev pub uart_baud : ℕ
uart_baud = 0x1c200

abbrev pub uart_interbyte_ms : ℕ
uart_interbyte_ms = 0x32

abbrev pub cmd_hello : ℕ
cmd_hello = 0x1

abbrev pub cmd_erase : ℕ
cmd_erase = 0x2

abbrev pub cmd_write : ℕ
cmd_write = 0x3

abbrev pub cmd_crc : ℕ
cmd_crc = 0x4

abbrev pub cmd_commit : ℕ
cmd_commit = 0x5

abbrev pub cmd_boot : ℕ
cmd_boot = 0x6

abbrev pub cmd_read : ℕ
cmd_read = 0x7

abbrev pub cmd_resp_bit : ℕ
cmd_resp_bit = 0x80

abbrev pub cmd_frame_err : ℕ
cmd_frame_err = 0xff

abbrev pub ok : ℕ
ok = 0x0

abbrev pub e_crc : ℕ
e_crc = 0x1

abbrev pub e_len : ℕ
e_len = 0x2

abbrev pub e_cmd : ℕ
e_cmd = 0x3

abbrev pub e_state : ℕ
e_state = 0x4

abbrev pub e_arg : ℕ
e_arg = 0x5

abbrev pub e_addr : ℕ
e_addr = 0x6

abbrev pub e_not_erased : ℕ
e_not_erased = 0x7

abbrev pub e_flash : ℕ
e_flash = 0x8

abbrev pub e_verify : ℕ
e_verify = 0x9

abbrev pub e_proto : ℕ
e_proto = 0xa

abbrev pub det_none : ℕ
det_none = 0x0

abbrev pub det_addr_range : ℕ
det_addr_range = 0x1

abbrev pub det_addr_align : ℕ
det_addr_align = 0x2

abbrev pub det_verify_mismatch : ℕ
det_verify_mismatch = 0x1

abbrev pub det_verify_nonseq : ℕ
det_verify_nonseq = 0x2

abbrev pub det_verify_norecord : ℕ
det_verify_norecord = 0x3

abbrev pub hello_magic : ℕ
hello_magic = 0x3150424f

abbrev pub hello_req_len : ℕ
hello_req_len = 0x6

abbrev pub hello_resp_len : ℕ
hello_resp_len = 0x30

abbrev pub slot_id_none : ℕ
slot_id_none = 0xff

abbrev pub family_ch570 : ℕ
family_ch570 = 0x1

abbrev pub family_ch572 : ℕ
family_ch572 = 0x2

abbrev pub family_ch591 : ℕ
family_ch591 = 0x3

abbrev pub family_ch592 : ℕ
family_ch592 = 0x4

abbrev pub transport_id_usb : ℕ
transport_id_usb = 0x1

abbrev pub transport_id_uart : ℕ
transport_id_uart = 0x2

abbrev pub feat_read : ℕ
feat_read = 0x1

abbrev pub feat_crc_live : ℕ
feat_crc_live = 0x2

abbrev pub boot_app : ℕ
boot_app = 0x0

abbrev pub boot_stay : ℕ
boot_stay = 0x1

abbrev pub boot_record_size : ℕ
boot_record_size = 0x20

abbrev pub record_magic : ℕ
record_magic = 0x3252424f

abbrev pub record_rsvd_bytes : ℕ
record_rsvd_bytes = 0xc

abbrev pub record_crc_len : ℕ
record_crc_len = 0x1c

abbrev pub bootreq_magic : ℕ
bootreq_magic = 0xb007ca11

abbrev pub bootreq_addr_ch57x : ℕ
bootreq_addr_ch57x = 0x20002ff0

abbrev pub bootreq_addr_ch59x : ℕ
bootreq_addr_ch59x = 0x200067f0

abbrev pub app_base : ℕ
app_base = 0x2000

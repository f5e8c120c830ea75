-- ===== src/Lib.antt =====
-- The OpenBoot host tool (tools/src), which updates the firmware of a device over its bootloader.
--
-- The parts and how they interact. A flow (tools/src/flows.rs) asks the device for its description,
-- chooses the image for the slot that the device offers for writing, plans, erases, writes and
-- commits. It does so by the commands of the client (tools/src/client.rs), which number the
-- requests, repeat a request that was lost and sort the answers. A request is a frame
-- (tools/src/proto/mod.rs) that a transport carries (tools/src/transport/mod.rs); on a byte stream
-- the frames stand behind two start bytes (tools/src/transport/framing.rs). The images come from
-- Intel HEX files (tools/src/hex.rs), flat binaries (tools/src/image.rs) or a bundle of the builds
-- for several slots (tools/src/bundle.rs).
--
-- The files:
--   Base       lists, bytes, machine words, results and stateful actions that all parts share
--   Proto      frames, payloads, device errors and the device description: `Frame` is the source's
--              Frame, `DeviceInfo.parse` its DeviceInfo::parse (tools/src/proto/device_info.rs),
--              Proto/Consts is tools/src/proto/consts.rs
--   Text       trimming and reading numbers, as the standard library of Rust does
--   Transport  the trait `Transport` and `xfer`; Transport/Framing is `recv_sof_frame`, and
--              Transport/Framing/Bridge makes a transport of a byte source.
--              Transport/Uart is tools/src/transport/uart.rs (Uart/Source fills the interfaces).
--              Transport/Hid is tools/src/transport/hidsel.rs (`select` is `open_hid` up to the
--              device that it opens) and tools/src/transport/hid.rs.
--              Transport/Qmk is tools/src/transport/qmk.rs: Qmk/Pipe has the reports, Qmk/Tunnel
--              fills the interfaces, and Qmk/Handshake has the opening and the teardown (`drop`,
--              and `with_link`, which drops the transport on an error)
--   Client     `BootClient`: `attempt`, `run` and a function for each command (`crc_of` is `crc`)
--   Hex        `parse_line` (Hex/Record), the accumulator (Hex/Assemble), `parse_intel_hex`
--   Image      `pad4` and `load_image`
--   Bundle     `Bundle::new`, `encode` and `parse`; Bundle/Source is `Source`, where
--              `image_for_base` is `Source::for_base`, and Bundle/Load is `load_source`
--   Flows      the checks and the plan (Flows/Plan), the loops and the flows; Flows/Commands is the
--              interface of the client that they use, and Flows/OverClient fills it
--   Cli        tools/src/main.rs: `parse_int_auto`, `parse_image_spec`, `open_transport` as the
--              call that it makes, and `exit_code_for`
--   Tests      concrete parameters, and the theorems on concrete inputs
--
-- Numbers are natural numbers. A sum or product of the source's integers that could wrap keeps its
-- `% 2 ^ w`, and a difference that the source has guarded is written as it is. A buffer is a list
-- of numbers. A failed assertion is a `fault`, and so is a division by a block or chunk of 0 where a
-- flow plans or checks (`nonzero`), a read out of range in decoding a frame, the
-- answers to HELLO and CRC, a record of Intel HEX and a bundle (`within`), a byte of an image that is
-- placed out of range, a chunk that is cut from beyond the end of what a port is sent, a frame that is
-- longer than the report of its device, and fuel that runs out.
-- The reads of the header of a received frame and of the reports of a keyboard are total functions
-- behind the tests of the length that the source makes, and do not show a panic. State is passed
-- explicitly, and it comes back after an error too (Base/Actions). The clock counts milliseconds.
--
-- Parameters. The checksum function of the crate crc32fast is any function from bytes to u32
-- numbers (Proto/Crc32). A serial port, an opened HID device, the report pipe of a keyboard, a
-- transport and a byte source are records of operations with laws: they never panic, time does not
-- run back, and only finitely many frames, bytes or reports are read before a deadline (`budget`,
-- which is also the fuel of the receive loops, and the theorems show that it is enough). `sent`,
-- `written` and `issued` log what was handed over; a serial port may take a front of the bytes of a
-- write that fails. The write loop and the erase loop of the flows get one round more than there are
-- bytes; the loop of `enter` gets a round for each millisecond and each report, and the loop of
-- probes one for each millisecond, which is enough where the poll interval and the gap between
-- probes are above 0, as the options of the source are.
--
-- Not modelled: opening a port or a device and their settings, which only call serialport and
-- hidapi; what clap parses, the dispatch of the subcommands and the commands on bundles in
-- tools/src/main.rs; printing and the texts of errors; and the firmware in C.
pub mod Base
pub mod Text
pub mod Proto
pub mod Transport
pub mod Client
pub mod Hex
pub mod Image
pub mod Bundle
pub mod Flows
pub mod Cli
pub mod Tests

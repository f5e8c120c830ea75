-- ===== src/Proto.antt =====
-- tools/src/proto: the frame codec, the request payloads, the device's answers.
pub mod Consts
pub mod Crc32
pub mod Frame
pub mod Status
pub mod Requests
pub mod DeviceInfo

-- ===== src/Tests.antt =====
-- Concrete transports and byte sources, and the runs of the theorems on concrete inputs.
mod Instances
mod Proto
mod Transport
mod Links
mod Tunnel
mod Hid
mod Cli
mod Client
mod Hex
mod Bundle
mod Flows

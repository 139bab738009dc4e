-- ===== src/Tests.antt =====
-- Runs of the modelled functions on concrete inputs, and the theorems at such inputs.
mod Data
mod Segments
mod Pool
mod Protocol
mod Server
mod Client
mod Vmem
mod FilePayload
mod Hooks
mod Resume
mod Download

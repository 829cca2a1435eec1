-- ===== src/Tests.antt =====
-- Runs of the model, and the theorems at concrete inputs.
mod Runs
mod Decode
mod Witnesses
mod Lines
mod Parameters
mod Replies
mod Connections

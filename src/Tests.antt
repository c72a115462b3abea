-- ===== src/Tests.antt =====
-- Concrete runs, and the theorems at concrete inputs.
mod Buffers
mod Message
mod Request
mod Compare
mod Escape
mod Index
mod Linked
mod MessageDatabase
mod Daemon
mod Database
mod Types
mod Url

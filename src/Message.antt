-- ===== src/Message.antt =====
-- The wire messages of common/slp_message.h, and their SLPv2 parser (common/slp_v2message.c with the
-- version switch of common/slp_message.c).
pub mod Types
pub mod Fields
pub mod Bodies
pub mod Parse
pub mod Within
pub mod Overread
pub mod Safe
pub mod Put
pub mod Reads

-- ===== src/Message/Safe.antt =====
-- Memory safety of the parsers of Message/Fields, Message/Bodies and Message/Parse, by a rule for each.
pub mod Fields
pub mod Bodies
pub mod Whole

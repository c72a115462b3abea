-- ===== src/Compare.antt =====
-- String comparison: common/slp_compare.c, as built without HAVE_ICU. A counted string is the list of
-- its bytes.
pub mod Chars
pub mod Text
pub mod Fold
pub mod Canon
pub mod Trimmed
pub mod Decoded
pub mod Canonical
pub mod Items
pub mod Contains
pub mod Unite
pub mod United
pub mod Normalize
pub mod IntersectRemove
pub mod NamingAuth
pub mod SrvType
pub mod Untagged

-- ===== src/Text.antt =====
-- What the source uses of packages strings, strconv and encoding/hex.
pub mod Suffix
pub mod Trim
pub mod Search
pub mod Lines
pub mod Truncate

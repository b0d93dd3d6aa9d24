-- ===== src/Utils.antt =====
-- The package analyzer/utils: the byte buffer and the linear state machine of the analyzers.
pub mod Bits
pub mod ByteBuffer
pub mod Lsm
pub mod Strings

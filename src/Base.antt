-- ===== src/Base.antt =====
-- The general helpers, talk/base.
pub mod ByteBuffer
pub mod Task
pub mod TaskRunner
pub mod Base64Chars
pub mod Base64
pub mod StringEncode
pub mod Times
pub mod MessageQueue

-- ===== src/Io.antt =====
-- Streams and their buffered reader and writer: minet/src/io.
pub mod Status
pub mod Stream
pub mod Socket
pub mod BufferInput
pub mod Reader
pub mod Writer
pub mod Source
mod Tests

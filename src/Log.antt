-- ===== src/Log.antt =====
-- log/: the buffers and streams that a log line is put together in, the files it goes to, and the
-- thread that writes them.
pub mod Buffer
pub mod Convert
pub mod Stream
pub mod File
pub mod LogFile
pub mod Async
pub mod Level
pub mod Logger
mod Tests

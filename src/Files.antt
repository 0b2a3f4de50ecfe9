-- ===== src/Files.antt =====
-- The programs on files and pipes: linux_file and process/communication/pipe.
pub mod Calls
pub mod Read
pub mod Pipe
pub mod PipeBuf
pub mod Clog
pub mod Mapped
pub mod Append
pub mod Flags
pub mod Opened
pub mod Seek
pub mod PipeSize
mod Tests

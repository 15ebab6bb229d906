-- ===== src/Fs.antt =====
-- The file system: src/fs/file_system.h, src/fs/file_system.cpp and src/fs/zip.h.
pub mod DosTime
pub mod ZipFormat
pub mod Stream
pub mod Archive
pub mod Files
pub mod Extend
pub mod Memory
pub mod Load

-- ===== src/Fs.antt =====
-- The file server: fs/fs.c and fs/serv.c.
pub mod Disk
pub mod Block
pub mod File
pub mod Dir
pub mod Serve
mod Tests

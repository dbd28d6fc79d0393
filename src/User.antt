-- ===== src/User.antt =====
-- The library of user processes: lib/fd.c and lib/file.c on open files, lib/fork.c and lib/spawn.c.
pub mod Space
pub mod File
pub mod Fd
pub mod Fork
pub mod Spawn
mod Tests

-- ===== src/Shell.antt =====
-- The course's shells: week08Lab2/myShell2.c and its predecessors.
pub mod Words
pub mod World
pub mod Execute
pub mod Redirect
pub mod Sequence
pub mod Pipeline
pub mod Session
pub mod Basic
pub mod ThreePipe
mod Tests

-- ===== src/Printer.antt =====
-- The print spooler of apue.3e/printer: printd.c, with print.h.
pub mod Jobs
pub mod Workers
pub mod Clients
pub mod Ipp
pub mod Printing
pub mod Startup
pub mod Submit
pub mod Reads
pub mod Response
pub mod JobFile
mod Tests

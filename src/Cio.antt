-- ===== src/Cio.antt =====
-- share/cio: the copying between two streams, and the loggers.
pub mod Pipe
pub mod Logger
mod Examples

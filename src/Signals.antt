-- ===== src/Signals.antt =====
-- The programs of Course_MohanM/9_Signals. Signals are blocked from the start of each program, so that a
-- handler runs only inside `sigsuspend`. Signals that other processes send are those of the lists of
-- deliveries in Signals.Catch and Signals.Timer, and none in Signals.Handshake.
pub mod Printer
pub mod Catch
pub mod Timer
pub mod Endings
pub mod Handshake
mod Tests

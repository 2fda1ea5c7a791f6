-- ===== src/Fifos.antt =====
-- src/ipc/fifos/fifos.c: the byte fifos between real time tasks and Linux processes.
pub mod State
pub mod Block
pub mod Transfer
pub mod Service
pub mod Drain
pub mod Lifetime
pub mod Named
mod Tests

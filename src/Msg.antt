-- ===== src/Msg.antt =====
-- src/ipc/msg/msg.c: short messages between tasks, the sends, remote procedure calls and returns.
pub mod State
pub mod Send
pub mod Rpc
pub mod Receive
mod Tests

-- ===== src/Mbx.antt =====
-- src/ipc/mbx/mbx.c: mailboxes, the byte buffer first and then the services that may block.
-- A service of a mailbox is a function of the state `Kernel`, in which the mailbox has a number.
pub mod Ring
pub mod Wait
pub mod Send
pub mod Receive
pub mod Delete
mod Tests

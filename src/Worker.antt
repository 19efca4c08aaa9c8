-- ===== src/Worker.antt =====
-- A worker thread of the backend: server/backend/worker.cpp. Its thread-local variables and its
-- context are the record `Worker`; a function that changes them returns the new record, and `none`
-- is a failed `assert` or a null pointer that is followed. Operations are read in the shared memory
-- `ops` by their addresses, and their data in the byte memory `mem`. Packets go out through the
-- parameter `Link`, and congestion windows are numbers of the parameter `Double`.
pub mod Defs
pub mod Receive
pub mod Repeated
pub mod Answers
pub mod Send
pub mod Payload
pub mod Packets
pub mod Groups
pub mod Stream
pub mod Marked
pub mod Loop
pub mod Resend
pub mod Tests

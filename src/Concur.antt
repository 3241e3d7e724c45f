-- ===== src/Concur.antt =====
-- The concurrency substrate of the host (host/concur).
pub mod Chan
pub mod Nursery
pub mod Mutex
pub mod Select
pub mod Supervise
pub mod Mailbox
pub mod Bridge
pub mod Lifetimes
pub mod Tests

-- ===== src/Shared.antt =====
-- src/shared: validation of texts, ids, and what both programs take from C and from jsoncpp.
pub mod Validation
pub mod Ids
pub mod Memory
pub mod Json
pub mod Buffer
pub mod Atomic
pub mod Sockets

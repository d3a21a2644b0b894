-- ===== src/MemoryPp/Raw.antt =====
-- crates/memory-pp/src/raw_store.rs: the store of raw spans, as the two tables that its SQL works on. What the
-- database makes of a call is an argument: at which of its steps the call fails, if it does. The
-- digest of the UTF-8 bytes of a text and the values of JSON are parameters, and a time is the number
-- of milliseconds.
pub mod Tables
pub mod Content
pub mod Mirrored
pub mod Recalled
pub mod Retention

-- ===== src/MemoryPp.antt =====
-- crates/memory-pp/src: the raw store of what happened, the frozen nodes, and the processor over them.
pub mod Cap
pub mod Raw
pub mod Frozen
pub mod Mesh
pub mod Processor

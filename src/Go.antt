-- ===== src/Go.antt =====
-- The parts of Go and of its standard library that the source builds on.
pub mod Heap
pub mod Channel

-- ===== src/Merge.antt =====
-- src/bpe/mod.rs: the byte-pair merge loop. `Spec` is the merge order as a relation, `Links` the
-- linked list that the loops keep in index arrays, `Small` the linear-scan loop for short inputs, `Heap`
-- the loop with a heap, `Remap` the table from bytes to their tokens.
pub mod Spec
pub mod Unique
pub mod Links
pub mod Small
pub mod Heap
pub mod Remap

-- ===== src/Tests.antt =====
-- Runs of the definitions on small inputs, and the theorems at concrete inputs, one child for each
-- part of the program.
mod WordPiece
mod Merge
mod Train
mod Padding
mod Cache
mod Pretokenize
mod Queue
mod Learn
mod Heap
mod Second
mod Remap

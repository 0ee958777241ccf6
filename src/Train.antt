-- ===== src/Train.antt =====
-- src/bpe_train.rs: the byte-pair trainers. `Words` is the update of one word, `Units` the relaxed
-- pretokenization of the second stage, `Queue` the choice of the next pair, `Run` the merge loop.
pub mod Words
pub mod Units
pub mod Learn

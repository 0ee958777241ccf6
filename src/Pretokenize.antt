-- ===== src/Pretokenize.antt =====
-- src/pretokenize: the splitting of a text into pretokens.
pub mod Unicode
pub mod Machine

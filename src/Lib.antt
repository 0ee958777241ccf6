-- ===== src/Lib.antt =====
-- The parts of the tokenizer library that decide which tokens a text becomes, and the part of the
-- trainer that decides which merges are learned. Paths are from the repository's root.
--
-- How the parts interact. The trainer (src/bpe_train.rs) learns the merges. An encoder splits a
-- text into pretokens (src/pretokenize) and merges the bytes of each pretoken with the merge cores
-- (src/bpe/mod.rs), or, for a WordPiece vocabulary, matches pieces greedily (src/bpe/wordpiece.rs).
-- A batch of results is assembled into one matrix on request (src/bindings/padding.rs). The
-- encodings of short pretokens are kept in a cache (src/bpe/pretoken_cache.rs).
--
-- Base: shared names, Boolean tests, lists and integers over the native numbers, association lists.
--
-- WordPiece: src/bpe/wordpiece.rs. The record WordPiece has the fields of the struct; `new` loads a
-- vocabulary and `encode_unit` encodes one word. WordPiece.Build is about `new`, WordPiece.MaxMatch
-- about the match loop, and WordPiece.Reference describes the algorithm over the one vocabulary. Maps
-- are association lists in which a later insertion wins. The match loop runs on fuel, one round for
-- each byte of the word; every round consumes a byte.
--
-- Merge: src/bpe/mod.rs. Merge.Spec is merging as a relation on lists, Merge.Unique that its result is
-- one, Merge.Links the linked list in index arrays with its invariant, Merge.Small the functions
-- bpe_merge_symbols_small_slice and bpe_merge_symbols_short_scalar. An array is a function from
-- indices, its length is `n`, and the rank table is a parameter. A merge takes one of `n` positions,
-- so `n` rounds are enough. In these functions the rank of a pair is also the merged token. Merge.Heap
-- has bpe_merge_symbols_by_rank_slice and its callers up to simple_bpe_merge: the heap of the standard
-- library is a list whose least entry is popped, and the loop runs on three rounds for each symbol,
-- since a round removes an entry, or a symbol while it adds at most two entries. Heap.Pop is about the
-- heap, Heap.Invariant, Step and Loop about a round with the ranks of the live pairs as a ghost,
-- Heap.Start about the first state, and Heap.Correct about the result. The links are 32-bit numbers
-- below the sentinel u32::MAX; the scratch buffers carry nothing from call to call. Merge.Remap has
-- ByteRemapping.from_byte_vocab, the table from bytes to the tokens of their one-byte entries.
--
-- Train: src/bpe_train.rs. Train.Words has the words, their pair counts and update_word; counts are
-- integers without a bound. Train.Units has push_line_units and relaxed_unit_counts; the substring
-- search of the memchr library is a parameter. The loop over a line runs on fuel, one round for
-- each byte and one more. Train.Learn has update_words and the tie-breaking rules, Train.Learn.Loop
-- the choice of the next pair and run_merges, Train.Learn.Start train_bpe. The priority queue of
-- the library priority_queue is the record PriorityQueue, its documented behaviour IsPriorityQueue
-- (Train.Learn.Queue). Hash maps are association lists, sets ascending lists, strings lists of
-- characters. Train.Learn.Changes, Index and Update are about update_words, Choose about the
-- choice, Keep and Run about the loop, Seeds, Cells and Stage about the start of a stage, and
-- Second has the second stage, train_superbpe_stage2, with the counts of its units (Second.Counts),
-- its words (Second.Words), that these spell their units (Second.Spell), and its result
-- (Second.Result). Train.Learn.Lookup is about the map from pairs to words, and
-- Train.Units.Documents about the cuts at the separators, with what the substring search promises;
-- Train.Units.Weight adds up the counted bytes. The merge loop runs on fuel, one round for each
-- missing symbol, and the loop over the tied pairs on the length of the queue.
--
-- Pretokenize: src/pretokenize/reference/state_machine.rs. Pretokenize.Unicode has the predicates of
-- src/pretokenize/unicode.rs over the record Icu: the character decoding of the standard library and
-- the tables of the icu library. Pretokenize.Machine has the checks of UTF8Iterator as functions from a
-- position, and the loop of next_state_machine with its rounds. Machine.Text is about positions between
-- characters, Machine.Steps about the checks, Machine.Run about a round and Machine.Tiles about the
-- tokens. A scan runs on fuel, one round for each byte; the machine's loop has three rounds for each
-- byte, since at most two rounds come between two that consume a character.
--
-- Cache: src/bpe/pretoken_cache.rs, the table from packed pretokens to packed encodings. The slots are
-- a list, the capacity its length. Cache.Masks is about masking by one less than a power of two,
-- Cache.Walk and Cache.Loops about the walk over the pairs of slots, Cache.Table about the invariant,
-- Cache.Grow about `grow`, Cache.Map and Cache.Lookups about what lookups answer, Cache.Replace about
-- `replace`, Cache.Probe about `probe_pair`, Cache.Sized about with_at_least. `insert` and
-- `replace` are insert_entry and replace_entry. The hash of a key is a parameter. A walk runs on fuel,
-- one round for each slot; it comes to every pair before it comes back.
--
-- Padding: src/bindings/padding.rs. pad_truncate_matrix with its errors as values; a slice out of
-- range and an allocation beyond `isize::MAX` bytes are panics. Padding.Rows describes one row,
-- Padding.Matrix the result.
--
-- Tests: runs on small inputs, and the theorems at concrete inputs.
--
-- Token ids and lengths are numbers without a bound, except `usize::MAX` where the source names it,
-- and the products of pad_truncate_matrix and with_at_least, which wrap as in a release build; the
-- theorems on these two bound their arguments. The memory that an allocation finds is not modelled.
--
-- Not modelled: the merges whose ranks are not the tokens and the pair-rank table, the vector twins
-- of the merges and of the pretokenizers (processor intrinsics), the other pretokenizers and the
-- Unicode class tables, the superword encoding, SentencePiece, normalization, loading from files
-- and the network, and the Python bindings. The parallel branch of update_words works on disjoint
-- words and adds up the same changes; the model takes the words one after the other.
pub mod Base
pub mod WordPiece
pub mod Merge
pub mod Train
pub mod Padding
pub mod Pretokenize
pub mod Cache
pub mod Tests

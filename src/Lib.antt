-- ===== src/Lib.antt =====
-- Verification library of llm-cpp, a C++ library and server for training and running small
-- language models.
--
-- The program turns text into ids with a byte-level BPE tokenizer, runs a network over them, and
-- generates text token by token. The keys and values of the tokens so far are kept in a cache
-- whose pages may come from a pool of tensors; a speculative decoder lets a small model propose
-- tokens which a large one verifies; training data are cut in batches, by a loader or by a worker
-- thread ahead of the consumer; a server admits a bounded number of requests at a time, reads their
-- bodies and answers them from the model. State space blocks scan a recurrence, in one pass or by
-- chunks, and weights are pruned. A trainer takes steps on batches and micro-batches.
--
-- The files and the code they model:
--   Prelude: lists, options, association lists, integers and the tactics that the others share.
--   Tokenizer: src/tokenizer.cpp. The class is the record Tokenizer, with one function for each
--     method; the loops of encode and train are merge_pass and train_loop. Merge, Vocabulary and
--     Training hold the invariants, RoundTrip is encode with decode. Stream is decode_incremental,
--     Pretokenize is split_pretokenize, Escape the JSON escapes, MergesFile is save and load.
--   Tensor: the storage part of src/tensor.cpp, over an abstract type of numbers. Product is the tiled
--     path of matmul, with Rows and Blocks for its loops, Sparse is matmul_sparse.
--   Pool: src/pool.cpp. Recycling is the invariant of the free lists.
--   Cache: src/kv_cache.cpp. Cells and Paging are the loops of the layouts; Rows, PageLaws,
--     PageWrites, Invariant, PagedUpdate and Slices what they do to one cell; Refinement the
--     abstract cache and its step; Fits the updates that read inside their tensors;
--     Clear, Layouts, NewCache and Equivalence the refinement over sequences of operations.
--   Generation: the greedy paths of GPT::generate, generate_streaming and generate_batch in
--     src/model.cpp. The network is the interface Gpt: an incremental step on a state and a forward
--     pass.
--   Speculative: src/speculative.cpp, over two values of Gpt.
--   Dataset: get_batch, DataLoader and pack_with_eos of src/dataset.cpp.
--   Prefetch: src/prefetch.cpp, the worker and the consumer as steps under the mutex; Signals adds
--     the sleeping and the notifications of the condition variables, Turns and Wakeups are about it.
--   Gguf: save_gguf and load_gguf of src/gguf.cpp, with the integers and strings of the format.
--     Save and Load are the two directions; Primitives, Reading and Writing what one writes and the
--     other reads back, File both together.
--   Server: src/server.cpp. Server itself is the gate, try_enter and leave, as steps of the atomic
--     operations. Json holds json_escape, extract_raw and the json_get functions, Http the answers of
--     serve_completions, serve_chat and dispatch with the counters; Strings and Controls are what is
--     read back of an escaped text, Requests the answers, Chat and Loop the two halves of serve_chat;
--     Connection is serve_connection, from the bytes of a request to those of the answer.
--   Text: find, std::to_string and std::stoi of the standard library, which the parts share.
--   Config: src/config.cpp. Files is what is saved and loaded, Validation what is accepted.
--   Trainer: src/trainer.cpp, over an interface of the network, the optimizer and the schedule. Loop is
--     the training loop over a DataLoader, Accumulation a cycle of micro-batches, Updates what
--     the optimizer gets, Safety the rollback, State the file of the training state.
--   Checkpoint: BestKeeper of src/checkpoint.cpp, over an order of its entries.
--   Beam: src/beam.cpp, over the interface Gpt and scores with their sorting. Growth is the text that
--     is returned, Best the choice of the beam.
--   Scan: src/mamba_scan.cpp, the sequential and the parallel scan, over abstract numbers. Reference
--     is the recurrence, Chunks and Passes the two passes over the chunks.
--   Prune: src/prune.cpp, on the bits of the floats: Pattern is the pattern of two in four, Threshold
--     the unstructured pruning.
--   Each Tests module runs the definitions on concrete inputs.
--
-- Bounds and fuel. A std::string is the list of its bytes, an int or size_t an unbounded number:
-- sizes and ids stay far below 2 ^ 31, and where the code subtracts, the guard before it keeps the
-- difference from going below 0. The loop of split_pretokenize runs on the length of the text, as
-- each round takes a byte; the rounds of the speculative decoder on the budget, as each round adds
-- a token; its trimming loop on 2, as the second round fits; the loop of build_order on the number
-- of tokens; the digits of an unsigned 64-bit number are at most 20. The loop of serve_chat
-- that searches the prompt takes its number of rounds, since it need not end. The integers of a GGUF
-- file are cut to their bytes, and sums of offsets to 64 bits, as in the code. The order of iteration of
-- the hash map in train is a parameter, as std::shuffle is.
--
-- Not modelled: the floating-point layers of the network, their gradients, quantization and the
-- optimizers, whose meaning is numerical; CUDA and OpenBLAS, which are other libraries; files,
-- sockets, the command line and logging; the block formats of GGUF files, the file formats of
-- checkpoints, sampling and the path of GPT::generate over state space blocks. Rounding and NaN: the scans are compared over exact numbers, and floats
-- are pruned by their bits without the sign, where no comparison holds of NaN. An access of a tensor
-- does not check its assertion in Tensor itself; the update of the cache, whose tensors come from
-- outside, checks it for all its reads.
pub mod Prelude
pub mod Tokenizer
pub mod Text
pub mod Config
pub mod Tensor
pub mod Pool
pub mod Cache
pub mod Generation
pub mod Beam
pub mod Speculative
pub mod Dataset
pub mod Prefetch
pub mod Trainer
pub mod Checkpoint
pub mod Server
pub mod Gguf
pub mod Scan
pub mod Prune

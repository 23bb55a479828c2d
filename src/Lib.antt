-- ===== src/Lib.antt =====
-- The token generation of onnxruntime-genai: the CPU search, the generator that drives it, the inputs
-- and outputs of the models, the memory of DirectML, and the configuration.
--
-- A `Generator` (src/generators.cpp) owns a search and the state of a model. `ComputeLogits` runs the
-- model on the last tokens and gives its scores to the search, which lowers some of them;
-- `GenerateNextToken` lets the search choose one token for each row. The search keeps the rows in
-- `Sequences`, and a beam search asks a scorer which rows to go on with. `Generate` repeats the two
-- calls until the search is done. Between two runs of a model its inputs grow by one place: the mask,
-- the positions and the cache of keys and values. The configuration says which sampling is used and
-- when to stop.
--
--   - Base, Std: shared names; lists over the native numbers, counted loops with an invariant rule,
--     rows of a buffer; what the sources use of the C++ algorithms.
--   - Sequences: src/sequences.cpp. Sequences/Rows, Sequences/Beams and Sequences/Start are about
--     greedy rounds, beam rounds and the constructor.
--   - Search: `Search_Cpu` and `GreedySearch_Cpu` of src/search.cpp. Search/Sampling has the ways to
--     choose tokens, Search/Scoring the scoring features; the other children are proofs.
--   - Beam: Beam/Hypotheses and Beam/Scorer are src/beam_search_scorer.cpp, Beam/Search is
--     `BeamSearch_Cpu` of src/search.cpp.
--   - Generator: src/generators.cpp. Generator/Dispatch has the virtual functions of `Search`.
--   - Config: src/config.h and src/config.cpp. Config/Handlers has the elements on their structs,
--     Config/Elements and Config/Tree their places in the configuration.
--   - Models: what src/models keeps between runs. Models/Positions is position_inputs.cpp, Models/Cache
--     kv_cache.cpp, Models/Logits logits.cpp, Models/InputIds input_ids.cpp, Models/Graphs
--     captured_graph_pool.cpp, Models/Buffers static_buffer.cpp; Models/Blocks has the copies of rows.
--   - Dml: src/dml. Dml/Upload is dml_pooled_upload_heap.cpp, Dml/Readback dml_readback_heap.cpp,
--     Dml/Descriptors dml_descriptor_pool.cpp, Dml/Queue dml_command_queue.cpp, Dml/Fence
--     dml_gpu_event.h.
--   - Json: src/json.cpp and src/json.h. Json/Text reads characters and strings, Json/Parser values; the
--     parser runs on fuel, and the place that an error reports is not modelled.
--   - Tests: concrete inputs.
--
-- A function of the source has its name in lower case here. Operations take the state and give the new
-- state; exceptions are values. Sizes are natural numbers, as the constructor of `Generator` has
-- checked them, and a negative number of beams is not modelled; tokens are integers. The memory of
-- DirectML, the offsets of Logits::Get and the sizes of static buffers are counted modulo 2^64, or 2^32
-- where the source has `uint32_t`, and the ids of captured graphs are the bits of an `int`; elsewhere
-- machine integers do not overflow. A read out of range gives 0, and a write out of range changes
-- nothing. The floats are an interface of their operations (Base/Float), and theorems that rank scores ask that
-- their order is a strict weak one. `std::sort`, `std::partial_sort` and the priority queue are one
-- insertion sort, whose order among equal scores is only one of those that C++ allows.
--
-- The loop of `Generate` runs on fuel: `max_length` rounds are enough, since each makes the rows one
-- token longer. The doubling of the readback heap has fuel for 64 doublings, which take any capacity
-- past 2^63.
--
-- Parameters: the random engine with its distributions, `State::Run` of the model, which may throw, and
-- `CreateState`, the conversions from `double`, `std::from_chars`, what Direct3D and the allocator
-- answer and how far the GPU has come, the cells of a new tensor.
-- Not modelled: the runs of models and ONNX Runtime, the searches on CUDA, the kernels and the
-- execution context of DirectML, static buffers of captured graphs, 16-bit floats, files, the log, the
-- bindings, `sequence_lengths_`.
pub mod Base
pub mod Beam
pub mod Config
pub mod Dml
pub mod Generator
pub mod Json
pub mod Models
pub mod Search
pub mod Sequences
pub mod Std
pub mod Tests

-- ===== src/Lib.antt =====
-- A model of the native (C++) runtime of distributed-layer-inference: a gateway tokenizes a
-- prompt and sends DLI2 frames along a chain of stage services, each of which runs the layers of
-- its partition and keeps a key-value cache for each request; the last stage answers with the
-- next token.
--
-- Parts and files (paths from the repository's root, under src/native):
--
--  Common: names and lemmas that the parts share: Boolean tests, lists and texts over the native
-- numbers, C++ integers, results of code that may throw, `|` on disjoint bits, and decimal
-- numerals.
--
-- Protocol: dli_common_cpp/src/protocol.cpp, the frame codec encode_frame and decode_frame; Words
-- has the little-endian words, Header the 20-byte header.
--
-- Tensor: dli_common_cpp/include/dli/common/dli2_abi.hpp and dli_common_cpp/src/tensor.cpp, the
-- shapes and byte counts that the stages check; Sizes has the element counts.
--
-- Json: dli_common_cpp/src/json_escape.cpp and unescape_json_string of
-- dli_common_cpp/src/metadata.cpp.
--
-- Gateway: Config has the records of dli_gateway_cpp/include/dli/gateway/config.hpp, Graph is
-- validate_partition_graph of dli_gateway_cpp/src/config.cpp; Config.Reader and Config.Sections
-- are the line reader of the stage map in the same file, Config.Kept and Config.Loaded what it
-- keeps. Yaml: what the readers of gateway and stage do with a line, which their two config.cpp
-- files repeat word for word.
--
-- Gateway.StageClient: forward_frame of dli_gateway_cpp/src/stage_client.cpp, on a transport that
-- is a parameter. Gateway.Routing: forward_through_partition_graph of
-- dli_gateway_cpp/src/generation_loop.cpp over it; Urls, Routed and Valid have its proofs.
--
-- Gateway.Generation: the rest of dli_gateway_cpp/src/generation_loop.cpp. It has the prompt, the
-- markers, the token bytes and the request metadata; Loop has run_stub_generation on a transport,
-- a tokenizer and doubles that are parameters, by recursion on the tokens that are left, Rounds
-- what a generation is, with its passes, Specification what its tokens are whatever the passes
-- do, Bounds and Progress what follows. Gateway.Tokenizer: the stub of
-- dli_gateway_cpp/src/tokenizer.cpp.
--
-- Metadata: the field extractors of dli_common_cpp/src/metadata.cpp; Fields has their round
-- trips, Request the shape and the doubles, Parsed the whole record.
--
-- Partition: dli_common_cpp/src/partition_plan.cpp, partition_tensor_assignment.cpp and the
-- lookups of gguf_inspector.cpp.
--
-- Http: dli_common_cpp/src/http.cpp and http_client.cpp with their headers. Message has the
-- header lines and lengths, Read the loop over the received chunks for either kind of message
-- (Chunks and HeaderEnd its proofs), Client the URLs, the request bytes and the response reader
-- (Fields the fields it writes), Written the readers on a message that was written line by line;
-- Client.Sent and Client.Answered put the two sides together.
--
-- Stage: dli_stage_cpp/src/runtimes/llama_partial_runtime.cpp and dli_stage_cpp/src/server.cpp.
-- Shard has the checks of a shard and of a request, Sessions the session map (Lookups, Kept and
-- Served its proofs), Cache the key-value cache bookkeeping, Forward the dispatch over a record
-- of executor operations, Broker the ForwardBroker as steps, with Broker.Sequential the server it
-- stands for, Broker.Serial the relation of what all interleavings reach and Broker.Drain the
-- worker's steps after a stop.
--
-- Stage.Server: the handler of dli_stage_cpp/src/server.cpp over any runtime, transport and
-- clock; Texts has its JSON, Answers its proofs, and Brokered puts it behind the queue of
-- Stage.Broker. Stage.StubRuntime: dli_stage_cpp/src/runtimes/stub_runtime.cpp. Stage.Config:
-- dli_stage_cpp/src/config.cpp, with Reader its line reader as a step on the variables of its
-- loop, Kept what a line leaves as it is, Own the lines of one stage and Agreed what follows for
-- the whole file.
--
-- Stage.Executor: dli_stage_cpp/src/runtimes/llama_cpu_executor.cpp, over floats and ggml
-- products that are parameters. Attention is the scalar attention and Reads what it reads of the
-- cache; Layer has the key-value cache and run_layer, Stored what storing a row keeps, Agree and
-- Sequence what follows for one layer and for all, Distributed for a model that is cut into two
-- partitions. Half has the float16 conversions, checked on all 65536 values, Tensors the readers
-- and writers of the tensors, Carried and Passed their way from one stage to the next. Sampling
-- has the choice of the token, Executed the execute functions, Lengths and Pipeline the sizes of
-- what they return, and OneMachine puts two stages against one machine.
--
-- Metrics: dli_common_cpp/src/metrics.cpp; Texts has what is read from and put into the metadata.
-- A double is a parameter with the operations that the code uses, the record Double of
-- Metadata.Request.
--
-- Conventions: a std::string and a vector of bytes are lists of numbers (Bytes), a function that
-- may throw returns a Result with one error constructor for each message, int and int64 are the
-- integers with the wrap-around or the undefined overflow written out where the code can meet it,
-- std::size_t is reduced modulo 2^64. std::sort is insertion sort, since the ascending
-- arrangement is unique. Loops are recursions on the list or on the rounds that are left, so no
-- fuel can run out; the digits of a numeral are counted by the number itself, which
-- Common.Decimal shows to be enough.
--
-- Not modelled: llama.cpp and ggml, sockets and threads themselves, files, the clock, the ggml
-- attention, the command-line tools' output.
pub mod Common
pub mod Protocol
pub mod Tensor
pub mod Json
pub mod Metadata
pub mod Gateway
pub mod Partition
pub mod Stage
pub mod Http
pub mod Yaml
pub mod Metrics

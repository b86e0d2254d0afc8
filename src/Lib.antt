-- ===== src/Lib.antt =====
-- Verification of the Modal client (the Python package modal/): the parts that decide which inputs
-- of a map are sent, retried and completed, the asynchronous structures they stand on, single calls
-- of a function, the loading of objects, the parameters of classes, uploads of large objects, and the
-- patterns that choose files.
--
-- How the program works. `Function.map` (modal/parallel_map.py) feeds inputs to the server and
-- yields outputs. A `_MapItemsManager` holds a `_MapItemContext` for each input in progress, behind
-- a semaphore. Each context counts its attempts with a `RetryManager` (modal/retries.py); an input
-- that must be sent again waits in a `TimestampPriorityQueue` (modal/_utils/async_utils.py), which
-- `queue_batch_iterator` reads in batches. Outputs come in any order and are yielded in the order of
-- the inputs. In the container, `_ContainerIOManager` (modal/_runtime/container_io_manager.py)
-- fetches inputs while `InputSlots` has a free slot. `_StreamReader` and `_StreamWriter`
-- (modal/io_streams.py) carry the output and the input of a sandbox. Most calls to the server go
-- through `retry_transient_errors` (modal/_utils/grpc_utils.py), and those to the input plane carry a
-- token of the `_AuthTokenManager` (modal/_utils/auth_token_manager.py). A single call is an
-- `_Invocation` or `_InputPlaneInvocation` (modal/_functions.py), which polls for the output and
-- retries with a `RetryManager` too. Arguments and files that are too large for a request are
-- uploaded by modal/_utils/blob_utils.py, and `FilePatternMatcher` (modal/file_pattern_matcher.py)
-- says which files of a directory are left out. modal/_utils/mount_utils.py checks where volumes
-- are mounted. Before a function can be called, the `Resolver` (modal/_resolver.py) loads it after the
-- objects it depends on. The parameters of a class are checked and sent as messages
-- (modal/_serialization.py, modal/_type_manager.py). In the container, an `IOContext`
-- (modal/_runtime/container_io_manager.py) holds one input or a batch, whose arguments it puts together.
-- modal/_resources.py checks the CPUs, the memory and the GPUs that a function asks for.
--
-- Files.
--   Prelude       shared names; lists, dictionaries, integers and errors over the native numbers
--   Float         what the code uses of floating-point numbers, as an interface, with an instance
--   Retry         `Retries`, `_to_proto` and `RetryManager` of modal/retries.py
--   RetryQueue    `TimestampPriorityQueue` of modal/_utils/async_utils.py
--   Batches       `queue_batch_iterator` of modal/_utils/async_utils.py
--   MapItems      the contexts and the manager of modal/parallel_map.py: Data (types), Context and
--                 Manager (their methods), Responses (the manager's handlers), Steps (events),
--                 Outputs (the loop of `get_all_outputs` over a response); Admits and Attempts prove
--                 what a context does with an output
--   MapOutputs    `update_state`, `update_counters` and `poll_outputs` of modal/parallel_map.py
--   InputSlots    `InputSlots` and `_generate_inputs` of modal/_runtime/container_io_manager.py
--   Streams       Lines (`_get_logs_by_line`) and Writer (`_StreamWriter`) of modal/io_streams.py
--   AuthToken     `_AuthTokenManager` of modal/_utils/auth_token_manager.py, and its tasks
--   GrpcRetry     `retry_transient_errors` of modal/_utils/grpc_utils.py
--   FilePatterns  Text (the string and path functions), Pattern and Ignorefile of
--                 modal/_utils/pattern_utils.py, Matcher of modal/file_pattern_matcher.py; the proofs
--                 are in Kinds, Paths, LastWins and Pruning
--   Blobs         Segment (modal/_utils/bytes_io_segment_payload.py); Multipart, Upload, Blocks and
--                 Fallback of modal/_utils/blob_utils.py; the proofs in SegmentLaws, Assembly,
--                 Integrity and FallbackLaws, and in Blocks itself
--   Invocations   Result and Create (modal/_utils/function_utils.py, modal/_functions.py), Poll, Run,
--                 InputPlane and Generator of modal/_functions.py; the proofs in PollLaws, RunLaws,
--                 RunEnds and Served, and in InputPlane and Generator themselves
--   Mounts        modal/_utils/mount_utils.py; the proofs in Volumes and Validated
--   Resolver      `Resolver` of modal/_resolver.py: its state, Load (the steps of `load` and of its
--                 `loader`), Listing (`objects`); the proofs in Tables, CallTables and Once, in Kept, Updates,
--                 Calls and Dependencies, and in Listed
--   AsyncUtils    Ordered (`async_map_ordered`) and Attempts (`retry`) of modal/_utils/async_utils.py;
--                 the proofs in Items, OrderedSteps and Order, and in Attempts itself
--   IoContext     `IOContext` of modal/_runtime/container_io_manager.py; Binding (its arguments); the
--                 proofs in Rows and Columns
--   Parameters    Values (modal/_type_manager.py), Sets and Formats (modal/_serialization.py); the proofs
--                 in RoundTrip, Typed and Compatible
--   Resources     modal/_resources.py, and `parse_gpu_config` of modal/gpu.py; the proof in Accepted
-- Examples files hold tests and concrete runs; the other files prove.
--
-- How the model corresponds to the code. A class is a record of its fields, and a method a function
-- from the fields before to its result and the fields after. asyncio runs one task at a time and
-- switches only at an `await`, so a run is a list of calls in any order; an `await` in the middle of
-- a handler (a token that has not come) ends the call as `suspended`, and a later event resumes it.
-- What a queue or a server answers is an argument: the arrivals between two rounds of
-- `TimestampPriorityQueue.get`, whether a queue seems empty to `queue_batch_iterator`, and each
-- response. Exceptions are values. A heap is the sorted list of its entries. Futures are options,
-- empty until their result is set. In the resolver and the ordered map, where tasks share a state, a
-- run is a list of events, each of which resumes one task until it waits again, or ends a request; an
-- event that cannot happen changes nothing. The text of log messages and of exceptions is left out.
--
-- Parameters. Floating-point numbers and `timedelta` are `Floats`, with an order, a greatest value, a
-- power that may overflow, the rounding to the 32 bits of a message's field and a conversion to whole
-- units; Float shows an instance. `HasDelays` says that no delay of a policy overflows, which holds of
-- the policies that `Retries` allows. `DecodedJwt` is a partial function from a
-- token to an index. Types of inputs and values are arbitrary. `re.compile` is a partial function from
-- a text to a test on texts, or an error; the functions of `str` and `os.path` that the patterns use
-- are written out in FilePatterns/Text for POSIX paths. The digests, `bytes.fromhex`, `str` of a
-- number and what a server answers are the fields of `Outside` (Blobs/Upload); a read of a file may
-- give fewer bytes than it asks for (`Reader`). Unpickling is `Unpickler` (Invocations/Result). The
-- n-th poll of a call gets the n-th answer of a `Server`, or of `Attempts`, and a clock is read after
-- it. `Messages` writes and reads the protobuf message of a set of parameters, and `ReadsBack` says
-- that what it wrote reads back.
-- What the resolver reads of an object is a field of `Objects`: its dependencies, its deduplication
-- key and its prefix do not change; the outcome of an object's `_load` is part of an event.
--
-- Bounds and fuel. `take_lines` and `drain` run on fuel: each round of the one takes a byte of the
-- buffer, each round of the other an entry of the dictionary, so the size of the buffer or the
-- dictionary at the start is enough. The compilation of a pattern reads a
-- character each round, so it runs on the length of the pattern, and so do the rounds that write a
-- segment or read a block on its size, with one more. The loops that wait for a server run on fuel that
-- a theorem relates to its answers. Python's integers do not overflow, so counts are ℕ, or ℤ where
-- the code goes below 0 (`InputSlots.active`). The buffer of a writer holds 2 MiB.
--
-- Not modelled: the tasks of a map that send batches and download results (they call the handlers
-- above in orders that the events allow), transport, pickling, downloads, the cancellation of loads,
-- user code, the command line, and the package's other subsystems, which do not touch the state above.
pub mod Prelude
pub mod Float
pub mod Retry
pub mod RetryQueue
pub mod MapItems
pub mod Batches
pub mod MapOutputs
pub mod InputSlots
pub mod Streams
pub mod AuthToken
pub mod GrpcRetry
pub mod FilePatterns
pub mod Blobs
pub mod Invocations
pub mod Mounts
pub mod Parameters
pub mod IoContext
pub mod Resolver
pub mod AsyncUtils
pub mod Resources

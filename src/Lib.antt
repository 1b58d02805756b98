-- ===== src/Lib.antt =====
-- Verification of the parts of PrimiHub that carry a task and its data between parties, and compute on
-- the columns of several parties.
--
-- A node (src/primihub/node) takes tasks and runs each in a worker. The scheduler's worker collects the
-- statuses that the parties report and decides how the task ended. A running task exchanges data with
-- its peers through a link context (src/primihub/util/network/link_context.h): queues by key, which
-- the node's data handlers fill and empty. The private set intersection (src/primihub/kernel/psi) is
-- such a task, which shares its result over the link. Another evaluates an expression on the columns of
-- three parties (src/primihub/executor), on shares (src/primihub/operator) or, to compare, in the clear.
-- A task gets its parties from the datasets that it names (src/primihub/task), which nodes register
-- (src/primihub/service/dataset), and requests and data travel in the messages of the gRPC layer
-- (src/primihub/node/node_interface.cc, src/primihub/util/network/grpc_link_context.cc).
--
-- Prelude: Boolean tests, lists, dictionaries (std::map) and the return codes of
-- src/primihub/common/common.h.
-- Queue: src/primihub/util/threadsafe_queue.h. `Queue` is one call at a time; Queue/Schedule is the
-- queue with the threads that sleep on its condition variable, a schedule being a list of actions.
-- Link: src/primihub/util/network/link_context.cc. A call takes the context and returns the next one,
-- or sleeps in it (`Call`). Memory with Storage and Ends is src/primihub/util/network/mem_channel.{h,cc},
-- MpcChannel src/primihub/util/network/mpc_channel.{h,cc}.
-- Grpc: the messages and the loops that cut data into them (Grpc, Packages); the handlers of a node that
-- read and write streams of them (Server), on the operations of VmNode; a channel's calls, with data
-- (Client, Deliver, Faults, Sequence, Forward) and with requests (Call, Retry, Seen, Once, Report); the
-- channels of a task (Context); the download of files of src/primihub/node/ds.cc (Download, FirstFile).
-- Task: src/primihub/task. The parties of a request and of its datasets (Task, Names, Merge), the search
-- for the datasets' metadata, with src/primihub/service/dataset/meta_service/grpc_impl.cc (Datasets,
-- Named), the parser and the scheduler (Schedule, Owners, Dispatched), the links of the aby3 protocol
-- (Aby3, Links).
-- Dataset: src/primihub/service/dataset with the registration of src/primihub/node/ds.cc (Register) and
-- the JSON objects of metadata (Json).
-- Worker: src/primihub/node/worker/worker.cc, the scheduler's side; Worker/Reports also
-- `FetchTaskStatus` of src/primihub/node/node_impl.cc.
-- VmNode: src/primihub/node/node_impl.cc, its tables (VmNode), the life of an executor (Life), the
-- handlers of requests (Exchange, Requests), the tables whose entries grow old (Tables), the dispatch
-- of a task (Dispatch, Recipients, Verdict), its execution (Execute), the clean-up of schedulers'
-- workers (Cleanup) and the end of the node (Shutdown).
-- Psi: src/primihub/kernel/psi/operator/base_psi.cc, the exchange of the result (Psi, Message, Exact,
-- Sync) and its selection from the input (Result, Blocks, Pick). Ecdh and EcdhExact are about
-- src/primihub/kernel/psi/operator/ecdh_psi.cc, both sides with their messages, Tee and TeeExact about
-- the data providers of src/primihub/kernel/psi/operator/tee_psi.cc.
-- Express: src/primihub/executor/express.{h,cc}, arithmetic on the columns of three parties. Parse is the
-- shunting-yard parser and the check of its suffix form, Grammar the expressions that it is for;
-- Config is `ColumnConfig`, Feed `FeedDict`, Mode the run mode and the values of tokens; Evaluate is the
-- loop over the suffix form, Value with Local the local calculation, Mpc that on shares. Characters,
-- Pending and RoundTrip are about the parser, Rows, Agree and Refine about the evaluation, Resolve,
-- Fed, Imported, Tokens and Check about the rest; Copy is what the local executor makes of the
-- configuration, with its own values.
-- Aby3: src/primihub/operator/aby3_operator.{h,cc}. Share has the operations with a constant on what the
-- three parties hold, Compare the comparison of the numbers of two of them. Operator and Library fill
-- the interface that the executor takes, `MpcOperator`, with the library's calls as a parameter; Plain
-- is such a library.
-- Paillier: src/primihub/algorithm/opt_paillier/src/crt_datapack.cc, packing by the Chinese remainder
-- theorem (Crt, Product, Retrieve).
-- Common: `Node` and its text form in src/primihub/common/common.h, with the split and `parseToNode`
-- of src/primihub/util/util.cc; Common/Hex: its `buf_to_hex_string`.
--
-- Texts are lists of byte values. Integers that the code holds in 64 bits are natural numbers where no
-- operation can exceed them; ports are checked against `int`. Times are natural numbers and arguments.
-- Exceptions, reads out of bounds and sleeping are values of the result types. Locks are not modelled:
-- what the code does under one lock is one step.
--
-- Fuel: the loop of `ReceiveResult` gets the length of the message, which is enough as each round
-- takes eight bytes at least; the loop of `FetchTaskStatus` gets one more than the number of queued
-- statuses, as it leaves in the round that finds none; the loop that cuts data into packages gets one
-- more than its length, as each round but the last takes a byte at least. The search for the metadata of
-- datasets takes the number of its retries. A schedule of the queue may wake a sleeper without a
-- notification.
--
-- Not modelled: the network itself. Calls over gRPC take a list of what befalls each attempt (`Fate`,
-- `Attempt`): whether it reached the peer, how far, and whether the answer came; other channels are a
-- record of functions (`Channel`). Nor are the processes and threads that run the tasks, logging, TLS,
-- the protocols of the aby3 library and the others, the command line and the bindings. The drivers of
-- datasets, the text of JSON objects, the meta service's replies, the cryptography of the PSI by elliptic curves with its
-- serialization, and the hash, the enclave and the shared keys of the PSI in an enclave are parameters,
-- records with what is documented of them. A protocol's `OnExecute` is a function argument of `execute`,
-- and what the parser of a task returns an argument of `dispatch_task`. What the executor of
-- expressions uses of `MPCOperator` is the record `MpcOperator`, whose laws are those of shared integers
-- (shared fixed-point numbers keep them up to rounding only, which is not modelled), the numbers of the machine
-- are the record `Number`, and the circuit of the comparison, GMP's next prime and its inverse are
-- function arguments.
pub mod Prelude
pub mod Common
pub mod Queue
pub mod Grpc
pub mod Task
pub mod Dataset
pub mod Link
pub mod Psi
pub mod Worker
pub mod VmNode
pub mod Express
pub mod Aby3
pub mod Paillier

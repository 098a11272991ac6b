-- ===== src/Lib.antt =====
-- doradd-storage: a deterministic transaction runtime. A dispatcher reads a log of transactions and
-- hands each to verona-rt as a behaviour on the cowns of its rows; the runtime runs behaviours that
-- share no cown in parallel, and the others in the order of the log.
--
-- The parts, and the files that model them:
--
-- * src/doradd/dispatcher.hpp, class FileDispatcher (one thread that prepares, prefetches and spawns):
--   Dispatch.antt has its state and operations, `run` among them, on explicit state. Dispatch/Batch is
--   about one batch, Dispatch/Schedule about the sequence of entries that the batches dispatch,
--   Dispatch/Order about that sequence, Dispatch/Short about a log of less than a batch, Dispatch/Replay
--   about a whole run.
-- * src/doradd/dispatcher.hpp, classes Indexer, Prefetcher and Spawner, as src/doradd/pipeline.hpp
--   connects them: Stages.antt has a round of each, cut where it touches a ring. Stages/Ring is the
--   contract of the ring (rigtorp::SPSCQueue, not code of the repository);
--   Stages/Pipeline has the interleaving of the three threads as a step relation, Stages/Cursor the
--   positions in the log, Stages/Fifo and Stages/Execution invariants of all reachable states,
--   Stages/Recording a transaction type with a list of the calls made on it, Stages/Prepares what the
--   Indexer has prepared, Stages/Refinement which calls the threads make, Stages/Desync the place where the stages
--   disagree. Stages/Joint runs RPCHandler beside the three threads, on the count and the array of time
--   stamps that they share; Stages/Taken, Stages/Arrivals, Stages/Work, Stages/Progress and
--   Stages/Drain are about that.
-- * Txn.antt is the template parameter of the dispatchers, the transaction type: a record of
--   `prepare_cowns`, `prefetch_cowns` and `parse_and_process`, which Ycsb.antt, Tpcc/Txn and Chain/Txn
--   fill. Config.antt has the constants of src/doradd/config.hpp.
-- * src/doradd/rpc_handler.hpp, struct RPCHandler: Rpc.antt has the thread that stamps and counts the
--   arrivals, cut between the stamp and the count; Rpc/Stamps is about the order of the two.
-- * Runtime.antt is the contract of `when` of verona-rt, which is not code of the repository: a
--   behaviour runs alone on its cowns, and after each earlier one that shares a cown with it.
-- * app/ycsb.cc and app/ycsb/: Ycsb.antt has the transaction, its lambda included, Ycsb/Table the
--   index of rows, Ycsb/Setup the loop that makes the rows; Ycsb/Body, Ycsb/Result and
--   Ycsb/Determinism are about what a transaction and a run leave.
-- * app/tpcc.cc, app/tpcc_macros.m4 and app/tpcc/: Tpcc.antt has the constants, Tpcc/Entries the rows
--   and their hash keys, Tpcc/Database the tables, Tpcc/Rows the state that the lambdas change,
--   Tpcc/Stock, Tpcc/NewOrder and Tpcc/Payment the lambdas, Tpcc/Txn what the stages call, Tpcc/Memory
--   the memory of the tables in the build with SINGLE_TABLE. Tpcc/Rand,
--   Tpcc/Load, Tpcc/LoadOrders, Tpcc/Loader and Tpcc/AllLoaded are the loader, Tpcc/FastRandom the
--   members of its random sources that it does not call. Tpcc/Keys, Tpcc/Orders, Tpcc/OrderLines, Tpcc/Split,
--   Tpcc/Loaded, Tpcc/LoadAll, Tpcc/StoredOrders, Tpcc/LoadedOrders, Tpcc/Prepared, Tpcc/XorShift,
--   Tpcc/Beside, Tpcc/Commute and Tpcc/MemoryApart are about them, and so are Tpcc/Partial, Tpcc/Pieces,
--   Tpcc/PieceLists, Tpcc/OrderPieces, Tpcc/OrdersApart and Tpcc/CommuteOrders, which take a new order apart into steps.
-- * app/chain.cc and app/chain/: Chain.antt has the constants, Chain/Switch the switch over the number
--   of writes (its cases in Chain/Switch/), Chain/Txn the transaction, Chain/Spin the lambdas,
--   Chain/Load the loader; Chain/Cases, Chain/Placed, Chain/Acquire and Chain/Loaded are about them.
--   Tables.antt is the table that app/tpcc/tables.hpp and app/chain/tables.hpp both declare,
--   Tables/Filled the loops that fill one, Txn/Pointers the loops of `prepare_cowns` that write
--   pointers into the log.
-- * The profile of app/txn_profile.cpp: TxnProfile.antt has the three versions of a transaction's
--   body, TxnProfile/Variants compares them, TxnProfile/Draws generates a random transaction.
-- * The program app/ycsb/gen-log/generate_ycsb_zipf.cc: YcsbLog.antt has its operations, YcsbLog/Keys
--   is about the keys that it finds, YcsbLog/Layout about the bytes of a transaction, which it writes
--   and app/ycsb.cc reads, YcsbLog/File about the whole file, YcsbLog/Run about a run of the benchmark
--   on it.
-- * src/doradd/txcounter.hpp, struct TxCounter: Counters.antt has the counters of the worker threads
--   and their registry, Counters/Update, Counters/Sum and Counters/Unordered are about the sum that the
--   dispatcher reads.
-- * The allocations of src/doradd/hugepage.hpp: HugePages.antt has the allocations, HugePages/Alloc
--   and HugePages/Copy are about the memory that they return.
-- * The program app/pipeline-profile: PipeProfile.antt has a chain of cores that pass batches on,
--   PipeProfile/Rounds is about one round, PipeProfile/Progress about a run.
--
-- Base has what the parts share: lists measured by native numbers, lists without repetition, Boolean
-- tests, unsigned arithmetic with its wrap-around written out, exclusive or, and numbers as sequences of
-- bytes.
--
-- How the code is read. Numbers of 32 and 64 bits keep their wrap-around; addresses are numbers taken
-- not to wrap. A `char*` into the log is such a number, and the contents of the log are part of the
-- state of the transaction type. Loads of atomic counters that other threads write, arrival times and
-- the calls of `rand()` are arguments. A C++ exception is `none`. Floating point, `memcpy` past the
-- end of a string, and memory that a constructor leaves unset are parameters.
--
-- Most loops of the code run over a list or a number. Some have fuel: the wait of Chain/Spin, the
-- draws of TxnProfile/Draws and those of YcsbLog; the theorems on them say how much is enough. The draws
-- of Tpcc/FastRandom that exclude a value have fuel too, and may run out of it for a source that only
-- draws that value.
-- `FileDispatcher::run`, which does not end by itself, is given its rounds as a list, and waits for
-- ever when the loads of the request counter end; the stages of the pipeline are steps, of which any
-- finite sequence is looked at. Where RPCHandler runs beside them, a relaxed load of the count returns a
-- value that the count has had, no older than the one before; what a thread writes before it pushes to
-- a ring, or counts a request, is taken to be seen by those who read that afterwards. For the count this
-- is more than the code's memory_order_relaxed promises.
--
-- The builds are those with RPC_LATENCY; PREFETCH for FileDispatcher, CORE_PIPE and INDEXER for the
-- stages. YCSB is modelled with and without INDEXER, TPC-C with and without WAREHOUSE_SPLIT.
--
-- Not modelled: the distributions of arrival times (src/misc/inter_arrival.hpp), thread pinning, the
-- experiments under app/prefetch and the measuring programs, the TPC-C log generators, and printed
-- rates. They are input and output, measurements, copies of other projects, or programs beside the
-- ones above.
mod Base
mod Config
mod Txn
pub mod Tables
pub mod Dispatch
pub mod Stages
pub mod Runtime
pub mod Ycsb
pub mod Tpcc
pub mod Rpc
pub mod Chain
pub mod TxnProfile
pub mod YcsbLog
pub mod Counters
pub mod HugePages
pub mod PipeProfile

-- ===== src/Lib.antt =====
-- pprof-rs: a sampling profiler for Rust programs. This library models the path that a sample takes,
-- from the signal to the report and to the formats that reports are written in, the control of a
-- profiling session, and the heap profiler.
--
-- The parts and how they interact. `ProfilerGuardBuilder::build` (src/profiler.rs) installs a signal
-- handler and sets an interval timer (src/timer.rs). On each signal the handler takes the lock of the
-- global profiler, if it is free, walks the stack, and hands the frames to `Profiler::sample`, which
-- counts them in a `Collector` (src/collector.rs): a hash table of buckets of four entries, which
-- evict their rarest entry to a buffer, which is flushed to a temporary file. `ReportBuilder`
-- (src/report.rs) iterates over the collector, converts the stacks (src/frames.rs), merges equal ones
-- in a `HashMap`, and returns the counts. Dropping the guard stops the timer, puts back the signal's
-- disposition, or ignores the signal if that was the default one, and makes a new collector. A report
-- is written as folded stacks, as a speedscope file, as lines for the flamegraph crate, or as a profile
-- in the pprof format (src/report.rs).
--
-- The heap profiler (src/alloc.rs) wraps an allocator. Each thread counts down bytes; the allocation
-- that uses them up is recorded under its call site, in a shard of the map of live blocks, and taken
-- back when the block is freed. `heap_report` takes a snapshot, which is turned into a report or into
-- a profile in the pprof format.
--
-- Which file models which part:
--   Prelude    lists, Boolean tests, words of 64 bits, integers, outcomes of calls
--   Key        what a collector or a map asks of its keys: `Eq` and `Hash`
--   Error      src/error.rs
--   Collector  src/collector.rs. Collector/Bucket is `Bucket`, Collector/HashCounter the table,
--              Collector/TempFdArray the buffer with its file, Collector/TempFile the calls of the
--              file, Collector/Counts what the whole counts. The field `data`
--              is called `collected`.
--   Frames     src/frames.rs. Frames/Eq and Frames/Resolved hold the two equalities and hashes.
--   Os         the system calls of src/profiler.rs and src/timer.rs, as parameters
--   PerfMap    src/perfmap.rs and `resolve_in_perfmap`. PerfMap/Words and PerfMap/Hex are on the
--              parts of a line, PerfMap/Loading on the map, PerfMap/Refreshing on its reloads.
--   Timer      src/timer.rs
--   Profiler   src/profiler.rs: state, blocklists, handler; Profiler/Control starts and stops,
--              Profiler/Recording, Profiler/Sampling, Profiler/Steps and Profiler/Lifecycle are on
--              what they do, Profiler/ThreadName names threads
--   Report     src/report.rs: the loop over the entries; Report/Builder `build` and
--              `build_unresolved`. The field `data` is called `counts`.
--              Report/Writer is what is used of `std::io::Write`; Report/Folded has `write_folded`
--              and the flamegraph's lines, Report/Speedscope `write_speedscope`, and their children
--              the readers of these formats.
--   Heap       src/alloc.rs: state and operations; Heap/Run sequences of events, Heap/Report
--              snapshots and their conversion, Heap/Refinement the state as a map of blocks,
--              Heap/Ledger the state against a book that follows the program
--   Proto      proto/perftools.profiles.rs, the messages of the pprof format
--   Pprof      the interning of strings and functions that both encoders share; Pprof/Cpu is
--              `Report::pprof`, Pprof/Heap `HeapReport::pprof`; Pprof/Functions reads names back
--   AddrValidate  src/addr_validate.rs on Linux
--   FramePointer  src/backtrace/frame_pointer.rs
--   Session    src/lib.rs, with the setters of `ProfilerGuardBuilder`, `ProfilerGuard` and
--              `ReportBuilder`
--   Criterion  src/criterion.rs; Criterion/Benchmark is on a benchmark between its two calls
--   Framehop   src/backtrace/framehop_unwinder.rs on x86_64 Linux
--   Tests      runs of the theorems on small instances
--
-- A call that changes state takes the state and returns it. `Outcome` is a value, a panic, or a loop
-- that its fuel does not cover; the loops on fuel in the collector run an iterator to its end, with one
-- more step than the iterator has items, and the theorems on them say that they end. Words are bit
-- patterns: addition on `isize`, `usize` and `u64` wraps, as in a release build, and `isize` is compared as two's
-- complement. A fixed array is a list; an index or a slice outside of it panics.
--
-- The configuration is x86_64 Linux with the feature `frame-pointer` and without `large-depth` and
-- `huge-depth`. `BUFFER_LENGTH` depends on a size in memory and is a parameter that is not zero.
-- Parameters stand for the temporary file (`TempFile`, whose laws are those of `write_all` and
-- `read_exact`), for `sigaction` and `setitimer` (`Os`), and for the unwinder's frames, symbol lookup,
-- demangling, text decoding and the hasher (`Resolver`). A `HashMap` is the list of its entries.
-- A signal is a record of what the handler meets: whether the lock is free, the frames that the
-- unwinder offers, the thread and the time.
--
-- In the heap profiler each operation is one step, locks are not poisoned, and the pointers of the
-- inner allocator and the frames of the unwinder are inputs. So is what `heap_report` allocates for its
-- own vectors, symbols and names, which it does while it holds the lock of the call sites; where that
-- makes it wait for itself, there is no result. In the encoders the order in which a set
-- yields its strings is a parameter (`HashSet`), an index of a table is not cut to a word, since no
-- table gets that long, and the values of a `HashMap` are those put in last. A `write!` is one call of
-- a parameter (`Writer`), with the text that its format comes to.
--
-- `validate` and the walk along frame pointers run on fuel: one more than the signals that can
-- interrupt a call is enough for the former, one more than the frames that the callback takes for the
-- latter. Memory and the calls on the pipe are parameters.
--
-- In a session of the helpers of src/lib.rs the signals that come before the report is built are an
-- input. A perf map is the list of what its lines are read as; the file, its time in seconds and what
-- the system allows are inputs, and each load is one step, which the thread that a call spawns takes
-- before the call's own load of `RESOLVER` or at some later time. The number of a thread is written
-- with at most `max_thread_name` rounds of each loop, for which the fuel is one more.
--
-- A turn of the framehop crate's iterator is a parameter, down to the words of the stack that it asks
-- for; each turn asks for finitely many, and the loop runs on fuel as the walk along frame pointers does.
-- What criterion.rs calls of the file system and of the encoders of other crates is a parameter
-- (`Host`).
--
-- Not modelled: the scan of shared libraries for the framehop crate and the adapter of the backtrace
-- crate (src/backtrace, glue around other crates), the encoding of protobuf messages as bytes (another
-- crate's), `samples_per_second` (floating point), saving `errno`, logging, and `Debug` output.
pub mod Prelude
pub mod Key
pub mod Error
pub mod Collector
pub mod Frames
pub mod Os
pub mod PerfMap
pub mod Timer
pub mod Profiler
pub mod Report
pub mod Heap
pub mod Proto
pub mod Pprof
pub mod AddrValidate
pub mod FramePointer
pub mod Session
pub mod Criterion
pub mod Framehop
mod Tests

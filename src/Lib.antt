-- ===== src/Lib.antt =====
-- Verification of the core of fastgozero, a web and rpc framework in Go: the in-process containers
-- and governance code under core/.
--
-- Collection models core/collection. Collection.Ring is ring.go (NewRing, Add, Take),
-- Collection.Fifo is fifo.go (NewQueue, Empty, Put, Take), Collection.SafeMap is safemap.go
-- (NewSafeMap, Del, Get, Set as put, Size, Range), Collection.RollingWindow is rollingwindow.go
-- (NewRollingWindow, span, updateOffset, Add, Reduce, window and Bucket). Collection.TimingWheel
-- is timingwheel.go: setTask, moveTask, removeTask, onTick with scanAndRunTasks and drainAll, and
-- TimingWheel.Loop its run loop, a sequence of messages and ticks; the entries that a slot and the
-- timers share stand in a heap, and the tasks that a handler executes are its result; the timers,
-- a SafeMap in the source, are one map. Collection.Cache is cache.go: Del, Get and SetWithExpire
-- with keyLru, whose calls of the timing wheel are listed. In the others, each method holds the
-- component's lock from its first to its last step, so it is one function from the state to the
-- new state and its results; a panic is none.
--
-- Breaker models core/breaker: googleBreaker (history, accept, doReq, allow) over a rolling window
-- of buckets of marks, with exact fractions for its floating-point numbers and with the draw and
-- the clock readings as arguments; Breaker.Reasons is errorWindow of breaker.go.
--
-- Syncx models core/syncx: AtomicLimit and SingleFlight as steps of goroutines that interleave,
-- the latter with the goroutines that join a call (Syncx.SingleFlight.Shared is about what they
-- read), RefResource, and Pool (Get, Put).
--
-- Search models core/search/tree.go: Tree with Add and Search over routes as lists of bytes that
-- are cut at the slashes into tokens.
--
-- Api models tools/fastgoctl/pkg/parser/api, the front of the parser of api files: Api.Token is
-- token/token.go and token/position.go, Api.Reader, Api.Durations and Api.Scanner are
-- scanner/scanner.go (reading and positions; numbers and durations; NextToken with the other
-- scans), and Api.Comments is the part of parser/parser.go that fetches tokens (init, nextToken).
-- A text is a list of runes; the errors keep their positions apart from their texts.
--
-- Hash models core/hash/consistenthash.go: ConsistentHash with its ring of replicas. The hash
-- function is a field, as in the source, and the texts of nodes are arguments; Hash.Order is about
-- the order of keys, Hash.Spread about the effect of an added node, Hash.Gone and Hash.Calls about
-- removal.
--
-- Executors models core/executors/periodicalexecutor.go with the containers of bulkexecutor.go and
-- chunkexecutor.go: Adds, Flushes and background goroutines as steps that interleave, with the
-- channel commander, the confirmations, inflight and guarded. A tick may come at any time and a
-- goroutine that finds inflight zero may quit at any time, so every timing of the source is among
-- the runs. Executors.Account is about where tasks are, Executors.Guard about the background
-- goroutine, and Executors.Served about the end of the Adds. Executors.Delay is delayexecutor.go
-- (NewDelayExecutor, Trigger), and Executors.Less lessexecutor.go (NewLessExecutor, DoOrDiscard).
--
-- Threading models core/threading/stablerunner.go: Push, Get and Wait of StableRunner and its
-- tasks as steps that interleave, with one goroutine that pushes and then waits and one that gets.
-- Threading.Order has the invariant, Threading.Steps and Threading.Got the steps that keep it, and
-- Threading.Run what follows.
--
-- Prelude holds what the parts share: slices as lists with native indices (Prelude.Lists), the
-- loops that read a slice round its end (Prelude.Cyclic) and Go's maps as association lists
-- (Prelude.Maps).
--
-- Numbers are natural numbers. Lengths, indices and counters of the containers stay far below
-- 2^63; the counter of an AtomicLimit wraps at 2^32; inflight of an executor is taken to stay
-- below 2^31; times are readings of the monotonic clock timex.Now in nanoseconds, and the model
-- takes them as arguments of the methods that read the clock. The loops are recursions on the
-- rounds left or on a list; those of the scanner and of nextToken take as their fuel the runes
-- left and one or two rounds more. A loop of the scanner that runs out of it sets `stuck` or gives
-- `endless`, and that of nextToken gives `stalled`; the theorems about them say that this does not
-- happen.
--
-- Not modelled: logging, metrics and tracing, the network services (redis, etcd, sql, mongo
-- clients), HTTP and RPC transport, and of the code generator fastgoctl the grammar, the syntax
-- tree and the templates; of the executors Sync, Wait and the options; and a handle of a
-- StableRunner that panics.
pub mod Prelude
pub mod Collection
pub mod Breaker
pub mod Syncx
pub mod Search
pub mod Api
pub mod Hash
pub mod Executors
pub mod Threading

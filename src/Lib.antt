-- ===== src/Lib.antt =====
-- Models and proofs of Blue-Bird, a backend and web framework in C.
--
-- The repository has modules (modules/), which an application links, and tools (tools/). An
-- application has an event loop (modules/runtime), in which timers and watched file descriptors
-- schedule tasks; the server (modules/web) runs on it, reads requests, passes them through the
-- middleware and the router, and keeps WebSocket connections alive. Sessions, passwords, templates,
-- storage and logging are modules of their own. tools/migrate plans and runs database migrations.
--
-- What models which part; a definition has the name of its C function, without the prefixes
-- `bb_` and `_` and the module's own:
-- - Runtime.TimerHeap: modules/runtime/src/timer_heap.c. The array of timers is a list; a timer's
--   task is a pointer, a number. Order, Up and Down have the order of the heap and the two
--   siftings; Push, Remove and RemoveTask the operations.
-- - Runtime.Task and Runtime.Scheduler: task.c and scheduler.c there. The bits of a task are
--   Booleans, its callbacks are recorded and not run; the queue is a list of pointers, with a store
--   of the tasks, and `take_next` is how runtime.c takes a task.
-- - Runtime.Poller: poller.c there, the table of descriptors. Masks has its entries, Refinement
--   the map of masks that it stands for.
-- - Runtime.Loop: runtime.c there, on the four parts before. Watch has the watchers of descriptors,
--   Tick a round of the loop and its end; Safe is the invariant, who owns a task, and below it each
--   operation's proof: Operations, Cancelling, Timers, Watching, Callbacks, Due, Rounds and End.
-- - Web.HttpParser: modules/web/src/http/parser.c. Target, StartLine and Fields have the syntax of
--   lines, Feed the loop over the bytes that arrive, a round of the loop being a function. Feed.Ends
--   bounds the rounds; Feed.Lines, Bodies, Resume and Split compare input in pieces with input at
--   once, and Feed.Capacity says what of a parser they leave aside. Syntax describes
--   request lines, with Target.Allowed for their targets.
-- - Web.WebSocket: modules/web/src/websocket. Frame reads frames from the bytes of a buffer
--   (bb_websocket_read_frames), Queue writes them (bb_websocket_queue_frame), Message turns frames
--   into messages, and Session has the heartbeat and the answers to frames. RoundTrip, Stream and
--   Bounds have the theorems on the codec.
-- - Web.Router: modules/web/src/router.c, with the path parameters of
--   modules/web/src/http/server_request.c. Split, First and Params have its theorems.
-- - Web.Path: decoding of a request's path and the test for dot segments, in
--   modules/web/src/http/server_request.c.
-- - Web.Query: the query parameters, in the same file.
-- - Web.Middleware: modules/web/src/middleware.c.
-- - Utils.Encoding and Utils.Base64: percent decoding and Base64 of modules/utils/src/encoding.c.
-- - Security.SessionStore: modules/security/src/session_store.c.
-- - Migrate.Plan: tools/migrate/src/plan.c. Entries, States and Build compare what it builds with
--   a description of a plan.
-- - Prelude: Boolean tests, lists with native lengths, counting, bits and C strings.
--
-- Conventions. Memory allocation is an argument, a flag or a function of the size, so that both
-- outcomes are covered. Pointers and callbacks are numbers. A C string is the list of the bytes before
-- its NUL. Bytes are natural numbers; machine words keep their wrap-around where the code can
-- reach it (`% word` in the frame codec and for the timers' clock). Clocks are natural numbers of
-- milliseconds or seconds.
--
-- In Runtime.Loop `none` is a fault: a task is destroyed that is not allocated, or an array is read
-- outside. A `run` callback is any function from runtimes to runtimes or faults; the theorems ask
-- that, where the invariant holds, what it does is a sequence of calls of the interface, with
-- pointers from `calloc` that are no task's and cancelling only tasks that are allocated, and that it
-- faults only where one of these calls does. A `cleanup` callback does nothing to the runtime, and a
-- callback does not call bb_runtime_tick or bb_runtime_destroy. What the system reports (memory,
-- events, time) is an argument. run_tasks serves at most `rounds` tasks, any number, since callbacks
-- may schedule tasks without end.
--
-- Fuel. The loops of the timer heap move an index and take fuel: on the way up and down at least
-- the length of the list, and in remove_task one more than it. There `none` stands for an exhausted
-- fuel or an access out of bounds, and the theorems show that a valid heap never gives it. Reading
-- frames takes the length of the buffer as fuel, which is enough since a frame takes at least two
-- bytes. The loops over the watchers of the event loop take their number, as each round looks
-- at one; the HTTP parser takes twice the bytes and two, as only the end of a chunk is a round
-- without a byte; updating the timers takes one more than their number, as none fires twice. The
-- other loops are recursion on the list they walk, or on a count of what is left.
--
-- Not modelled: sockets, TLS, files, databases, clocks and random numbers, which the code only calls;
-- and the connection buffers, JSON, hashes, templates, database queries and the runner of migrations.
mod Prelude
pub mod Runtime
pub mod Migrate
pub mod Web
pub mod Security
pub mod Utils

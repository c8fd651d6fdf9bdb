-- ===== src/Lib.antt =====
-- civan is a C++ server library: coroutines on threads (fibers, a scheduler), an event loop on epoll
-- with timers, a byte array for messages, and a server for HTTP on top of them. This library models
-- the parts that keep state of their own and proves what makes them correct.
--
-- Parts and files, with the paths of the repository:
-- - ByteArray: civan/bytearray.h, civan/bytearray.cc and the byte orders of civan/endian.h. The chain of
--   blocks is a list of lists of bytes, split at `m_cur` into `passed` and `ahead`; a null `m_cur` is
--   an empty `ahead`. ByteArray/Nodes has the loops of `write`, `read` and `setPosition` over the
--   chain, ByteArray/State the operations (`write`, `read`, `read_at` for the `read` with a position,
--   `set_position`, `add_capacity`, `clear`, `to_string`), ByteArray/Codec the typed reads and writes
--   (`write_fixed` for `writeFint16` to `writeFuint64`, `write_uint32`, `write_string_vint` and so
--   on). ByteArray/Buffers has `getReadBuffers` and `getWriteBuffers`,
--   and ByteArray/Doubles the `double` quotient of `addCapacity`.
--   The other files of ByteArray hold the lemmas and theorems.
-- - Timer: civan/timer.h and civan/timer.cc. Timer/State has `Timer` and `TimerManager` with all their
--   operations; the `std::set` is a list in its order, and timers outside the set are `parked`.
--   Timer/Order, Timer/Preserve, Timer/Handles, Timer/Expiry and Timer/Wait hold the theorems.
-- - IoManager: civan/iomanager.h and civan/iomanager.cc. IoManager/State has the operations on the
--   context of one descriptor, IoManager/Table those on the table and the loop of `idle` over what
--   `epoll_wait` reports. `IOManager` inherits `TimerManager`: its `idle` takes the timeout from
--   `getNextTimer` and schedules what `listExpiredCb` hands out. What an event has to run goes to a
--   scheduler, as a list of tasks.
-- - FdManager: civan/fd_manager.h and civan/fd_manager.cc. FdManager/State has `FdCtx` and the table of
--   them, FdManager/Lookup shows the table as a map.
-- - Servlet: `ServletDispatch` of civan/http/servlet.h and civan/http/servlet.cc, in Servlet/Dispatch;
--   the theorems are in Servlet/Routes and Servlet/Globs. `fnmatch` is a parameter.
-- - Http: civan/http/http.h and civan/http/http.cc. The methods and status codes are in Http/Method and
--   Http/Status. Http/CaseInsensitive has the comparator of the header maps, and Common/SortedMap a
--   `std::map` as a sorted list. Http/Params has the macro `PARSE_PARAM`, Http/Request `HttpRequest` with
--   the parsing that it puts off, Http/Response `HttpResponse`, and Http/Dump the two `dump`. The
--   theorems are in Http/Names, Http/Scan and Http/Query (the macro), Http/Lookup, Http/Lazy and
--   Http/Fresh (what the maps answer), Http/Order, Http/Connection and Http/Decimal.
-- - Util: `UrlEncode`, `UrlDecode`, `Trim`, `TrimLeft` and `TrimRight` of civan/util.cc, in Util/Url and
--   Util/Trim, which the parameters of HTTP go through; the theorems are in Util/Loops, Util/RoundTrip,
--   Util/Safe and Util/Ends.
-- - Fiber: civan/fiber.h and civan/fiber.cc. Fiber/State has the states of fibers, the thread-local
--   pointers and each operation between two calls of `swapcontext`; Fiber/Switch shows a whole turn.
-- - Scheduler: civan/scheduler.h and civan/scheduler.cc. Scheduler/State has the queue, `schedule`,
--   `stopping` and `run`, cut into the steps between which other threads can come in;
--   Scheduler/System has `start` and the steps of all threads together. Scheduler/Queue shows what a
--   thread takes, Scheduler/Workers, Scheduler/Steps, Scheduler/Invariant and Scheduler/Stopping the
--   invariant.
-- - Hook: civan/hook.cc. Hook/Io has `do_io` as rounds of calls of the system, Hook/Connect
--   `connect_with_timeout`, Hook/Flags the flags of `fcntl` and `ioctl`; Hook/Waits has the times of
--   `sleep` and the protocol of timers and events.
-- - Log: civan/log.h and civan/log.cc. Log/Formatter has `LogFormatter::init`, Log/Pattern shows what it
--   makes of a pattern, and Log/Level has the levels.
-- - Stream: `readFixSize` and `writeFixSize` of civan/stream.cc, in Stream/Fix. The virtual `read` or
--   `write` is a parameter.
-- - SocketStream: the `write` of civan/socket_stream.cc from a byte array, in SocketStream/Send.
-- - Address: the comparisons of civan/address.cc, in Address/Order.
-- Common and Words hold what they share: Boolean tests, lists over the native numbers, the outcome of
-- a call (a value, an `out_of_range` exception, undefined behaviour or a failed assertion), and
-- words of bits and bytes.
--
-- Assumptions and bounds. Locks make each operation one step, but for `run` of the scheduler and for
-- `delEvent`, `cancelEvent` and `cancelAll`, which test the flags of a descriptor before they lock it:
-- these are cut where other calls can come in. `addEvent` is called by threads of a scheduler in the
-- theorems. The clock, the addresses of new
-- objects, the content of new memory and the success of `epoll_ctl` are arguments, so the theorems
-- hold for all of them. Callbacks, fibers and schedulers are numbers. Machine words wrap round as
-- written out (`% 2 ^ 64`); sizes of memory stay below 2 ^ 64, and the theorems
-- that allocate keep them within 2 ^ 53, up to which the `double` of `addCapacity` is exact. Signed
-- overflow is undefined behaviour. The loops over the chain and the sets
-- are structural. `varint_loop` has as much room as the array `tmp` of the code, 5 or 10 bytes, which
-- is enough for every 32-bit or 64-bit value (it would be undefined behaviour otherwise); the loop
-- of `readUint32` and `readUint64` has the 5 or 10 rounds of its test. The loop of `fix_size` has one
-- round more than bytes are asked for, and each round but the last moves one at least. `parse_loop`
-- has one round more than the string has characters, and each round but the last takes one at least.
-- `decimal` has the 20 digits of a `size_t`.
--
-- Not modelled: of the scheduler the root fiber and the joins of `stop`, of `Fiber` the saved registers;
-- of HTTP the sessions, the server and the wrappers of the parsers (civan/http); the message store
-- (civan/store), configuration, sockets, the rest of
-- addresses and of `SocketStream`; of the log its managers and
-- appenders; of the hooks the
-- commands of `fcntl` that are passed on; of the byte array its files and the
-- hexadecimal dump, of the timers the condition timers, of the event loop the pipe and the threads.
-- The parsers that ragel generates and the messages of protoc are generated code.
pub mod Common
pub mod Words
pub mod Util
pub mod ByteArray
pub mod Timer
pub mod IoManager
pub mod FdManager
pub mod Servlet
pub mod Http
pub mod Stream
pub mod SocketStream
pub mod Address
pub mod Fiber
pub mod Scheduler
pub mod Hook
pub mod Log

-- ===== src/Lib.antt =====
-- sylar, a C++ server framework: coroutines on a scheduler, an I/O manager on epoll with timers,
-- hooks that make blocking calls cooperative, and above them sockets, streams and HTTP.
--
-- What is modelled, and where:
--
-- Common: tests on numbers, lists, bit operations and two's complement integers.
--
-- ByteArray (sylar/bytearray.h, sylar/bytearray.cc, sylar/endian.h): the buffer of linked blocks.
--   ByteArray/State has its members, ByteArray/Buffer addCapacity, write, both reads, setPosition,
--   clear and toString, ByteArray/Words the bytes of integers and the zigzag code, ByteArray/Codec
--   the typed methods, ByteArray/Iovecs getReadBuffers and getWriteBuffers. The chain from m_root is
--   split at m_cur into the blocks before it and from it on; a null pointer that the code would go
--   through is the outcome `fault`, std::out_of_range the outcome `out_of_range`. A method of several
--   widths is one definition with the width as a parameter. The byte order of the machine is a
--   parameter, a float is its bit pattern. Loops recur on the blocks; those of the variable-size
--   integers recur on the room of `tmp` and on the shifts, 5 and 10 of them, which is all there are.
--
-- Timer (sylar/timer.h, sylar/timer.cc): Timer and TimerManager. Timer/Manager has all of their
--   calls. A timer is an object in a heap, and a new one stands at the next free address; the set
--   holds addresses in the order of the comparator, and the time is an argument of each call.
--   Callbacks are numbers that name them. Calls of onTimerInsertedAtFront are counted. Times are
--   uint64_t and wrap around.
--
-- IoManager (sylar/iomanager.h, sylar/iomanager.cc): the event contexts. IoManager/State has
--   FdContext, triggerEvent and contextResize, IoManager/Events has addEvent, delEvent, cancelEvent,
--   cancelAll and the body of idle's loop over the reports of epoll_wait. Each is one step, as the
--   code holds the context's mutex. Whether an epoll_ctl succeeds is an argument; one that succeeds
--   is recorded in a table that stands for the kernel's. What is handed to schedulers is a list.
--
-- Fiber (sylar/fiber.h, sylar/fiber.cc): Fiber/State has the fibers as objects on a heap, with their
--   states and callbacks, and the thread locals. A swap of contexts records which fiber the thread
--   runs; the context itself is ucontext. A failed assertion is `none`.
--
-- Scheduler (sylar/scheduler.h, sylar/scheduler.cc): Scheduler/Queue has the queue of tasks, schedule
--   for one task and for a batch, the search of run for a task, and stopping. Scheduler/Run has the
--   loop of run on any number of threads: a worker has a phase, which says where in the loop it is,
--   and each step takes one worker from a phase to the next, lets the fiber on a worker act
--   (schedule, yield, return, throw; in the idle fiber what Scheduler::idle does), or lets a thread
--   outside schedule, start or stop. A yield sets the fiber's state in one step and swaps out in
--   another, as the code does. Threads interleave freely between steps.
--
-- Reactor (sylar/iomanager.cc): Reactor/Round has tickle, stopping and a round of IOManager::idle over
--   the timers, the queue and the events. The times at which it begins and at which epoll_wait is
--   back, and what epoll_wait reports, are arguments; so is the number of interrupts. The tasks of
--   the reported events are put into this scheduler's queue behind those of the timers, or are listed
--   for another scheduler.
--
-- FdManager (sylar/fd_manager.h, sylar/fd_manager.cc): FdManager/Table has FdCtx and FdManager. What
--   fstat and fcntl tell of a descriptor is an argument.
--
-- Stream (sylar/stream.h, sylar/stream.cc, sylar/socket_stream.cc): Stream/FixSize has readFixSize and
--   writeFixSize over the virtual read and write, with the size_t arithmetic written out. Fuel counts
--   the rounds of a loop. Stream/Socket has SocketStream; the Socket is a parameter.
--
-- Log (sylar/log.h, sylar/log.cc): Log/Level has the levels, Log/Pattern the parser of LogFormatter,
--   Log/Logger the loggers and appenders, which share formatters. What is left of the pattern stands
--   for the index into it, and the fuel of the loop is the length of the pattern and one more.
--
-- Env (sylar/env.h, sylar/env.cc): Env/State has the arguments of the program and the paths. What
--   readlink finds is an argument.
--
-- Connection (sylar/http/http_connection.h, sylar/http/http_connection.cc): Connection/Pool has the
--   HttpConnectionPool. Connections are objects on a heap, whose peers connect and hang up in steps of
--   their own; the list of the pointers that are handed out stands for the callers' shared pointers.
--   The time is an argument, and so is whether the host can be reached. The sum of a creation time
--   and a limit of 32 bits does not wrap around.
--
-- Hook (sylar/hook.cc): Hook/Descriptors has the first tests of do_io, fcntl with F_SETFL and
--   F_GETFL, ioctl with FIONBIO and setsockopt of the time-outs, over the table of FdManager and
--   the flags that the kernel keeps, and Hook/Close has socket, accept and close, over the tables
--   of FdManager and IoManager. Hook/DoIo has the loop of do_io: the call, addEvent, the timer, its
--   callback, the reports, a `close` of the descriptor and the scheduler are events, which come in
--   any order that their guards allow; a callback runs in one step, and the flag is that of one
--   call of do_io. Hook/Connect has connect_with_timeout with what it meets as arguments.
--   Hook/Sleep has the times that the sleeps hand to addTimer. Descriptors are not negative; what
--   the kernel makes of F_SETFL is a parameter.
--
-- Address (sylar/address.cc): Address/Prefix has CreateMask, CountBytes, and the three addresses of an
--   IPv4 prefix. A word in network order is given by its number, so that the swaps of bytes cancel; a
--   shift that C++ leaves undefined is a result of its own. Fuel counts the rounds of CountBytes.
--
-- Http (sylar/http/http.h, sylar/http/http.cc, sylar/http/servlet.h, sylar/http/servlet.cc):
--   Http/Methods has the methods and status codes, Http/Headers the case-insensitive maps,
--   Http/Message requests and responses and how they are printed, Http/Servlet the dispatcher. A
--   string is its bytes. fnmatch and boost::lexical_cast are parameters.
--
-- Not modelled: the switch of contexts itself (sylar/fiber.cc), use_caller and the joins of stop
-- (sylar/scheduler.cc, sylar/thread.cc), sockets, the other calls of addresses, the configuration, the
-- output of a log item, and the parsers that Ragel generates (sylar/uri.rl.cc,
-- sylar/http/http11_parser.rl.cc, sylar/http/httpclient_parser.rl.cc). Of a ByteArray the file access
-- and the hexadecimal text are left out, of a timer the weak pointer of a conditional one, of the I/O
-- manager the negative descriptors, of a SocketStream its two methods on a ByteArray.
pub mod Common
pub mod ByteArray
pub mod Timer
pub mod IoManager
pub mod Fiber
pub mod Scheduler
pub mod Reactor
pub mod FdManager
pub mod Stream
pub mod Log
pub mod Env
pub mod Connection
pub mod Hook
pub mod Address
pub mod Http

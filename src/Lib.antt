-- ===== src/Lib.antt =====
-- KnetLib, a reactor network library: an event loop in each thread waits in epoll, dispatches
-- events to channels, and channels call the connections that own them.
--
-- How the parts interact: EventLoop asks Epoll for the channels that have events and calls
-- Channel::handleEvents on each; a TcpConnection owns one channel, reads into one Buffer and
-- writes from another, and tells the poller through its channel when to wait for room to
-- write. A loop keeps its timers in a TimerQueue; EventLoopThread runs a loop in a thread, and
-- EventLoopThreadPool several. TcpServer accepts through Acceptor and TcpServerSingle and
-- hands connections over to the loops of a pool, and TcpClient connects through Connector and
-- tries again by a timer. Server and Connection are an older echo server on the same loops,
-- with ThreadPool for their threads. Logger makes the lines, which AsyncLogging collects from
-- many threads and writes to files in one. The programs under examples/ are message callbacks
-- over a TcpServer, one that echoes and one that answers HTTP requests, and a client that
-- sends what its user types.
--
-- The model. An operation is a function of the state it changes, and what a system call
-- answers is an argument: the kernel's half of epoll_ctl is the record `Kernel` with the laws
-- `IsEpoll`, readv and write are functions with the laws `IsReadv` and `IsWrite`. A call that
-- may end the process returns an `Outcome`: a failed assertion of a build without NDEBUG, a
-- null pointer, errif. `Returns P m` says that the call `m` returns and its value satisfies
-- `P`, so that no theorem of that form holds of a call that crashes.
--
-- Files (a module Tests holds concrete runs; Epoll/Example is a kernel that the runs use):
--   Common: names of the libraries, Boolean tests, lists over native numbers, outcomes.
--   Text: string literals as lists of characters.
--   Memory, Words: ranges of a vector; size_t, which wraps at 2 ^ 64, and byte order.
--   Sys: what system calls answer.
--   Buffer (include/knetlib/Buffer.h, src/Buffer.cpp): the buffer and its operations, named as
--     in the source; Buffer/Fd readFd, Buffer/Search findCRLF and findEOL; Buffer/Valid,
--     Buffer/Integers and Buffer/Session prove.
--   Channel (include/knetlib/Channel.h, src/Channel.cpp): event masks and the dispatch;
--     Channel/Dispatch is the dispatch with given callbacks.
--   Epoll (include/knetlib/Epoll.h, src/Epoll.cpp): poll, updateChannel, removeChannel, and
--     the enable and disable operations of a channel with the poller behind them;
--     Epoll/Registered, Changes and Watched prove.
--   TcpConnection (include/knetlib/TcpConnection.h, src/TcpConnection.cpp): the connection;
--     TcpConnection/Events the handlers, TcpConnection/Sending sending and closing. A call
--     that another thread queues into the loop is a `Task`. TcpConnection/Sound is the
--     invariant; Accept, Drain, Close and Forward prove, with TcpConnection/Forward/Operations
--     the sequences of calls, tasks and events, and Forward/Late an exchange of another thread
--     that comes too late. TcpConnection/Stream follows the bytes over sequences of sends,
--     Stream/Emptied until they are all on the wire, and TcpConnection/Reply is a message
--     callback that answers. TcpConnection/Example holds connections that the runs use.
--   EventLoop (include/knetlib/EventLoop.h, src/EventLoop.cpp): the queued tasks, the eventfd,
--     a round of the loop; EventLoop/Wakeup is the loop among other threads, as a step
--     relation; EventLoop/Lifetime is the constructor and the destructor, EventLoop/Timers
--     runAt and its kin; EventLoop/Tasks and EventLoop/Quit prove.
--   EventLoopThread (include/knetlib/EventLoopThread.h, src/EventLoopThread.cpp): the thread
--     of a loop and its owner, as a step relation; EventLoopThread/Stop proves.
--   EventLoopThreadPool (include/knetlib/EventLoopThreadPool.h, src/EventLoopThreadPool.cpp):
--     the loops that take turns.
--   TimerQueue (include/knetlib/Timer.h, include/knetlib/TimerQueue.h, src/TimerQueue.cpp):
--     timers on a heap, the ordered set of entries, and an expiry; TimerQueue/Expiry is about
--     the set, TimerQueue/Dangling about single timers; TimerQueue/Linked is the invariant of
--     set and heap, for Kept and Settled; TimerQueue/Owned and Tidied show that no timer is
--     lost, TimerQueue/Armed is about the timerfd, and TimerQueue/Sequence about calls in any
--     order.
--   Connector (include/knetlib/Connector.h, src/Connector.cpp): an attempt to connect;
--     Connector/Attempts proves.
--   TcpClient (include/knetlib/TcpClient.h, src/TcpClient.cpp): the retry timer around
--     attempts. TcpClient/Start and TcpClient/Connects prove. TcpClient/Session is the client
--     with its connection, up to `disconnect`; Session/Flushed proves.
--   Acceptor (include/knetlib/Acceptor.h, src/Acceptor.cpp): a listening socket;
--     Acceptor/Listening proves.
--   TcpServerSingle (include/knetlib/TcpServerSingle.h, src/TcpServerSingle.cpp): the set of
--     connections that a server owns.
--   TcpServer (include/knetlib/TcpServer.h, src/TcpServer.cpp): handing connections over to
--     the loops of a pool, the shared pointers to a connection and how long it lives;
--     TcpServer/Dealing and TcpServer/Lifetime prove.
--   AsyncLogging (include/knetlib/AsyncLogging.h, src/AsyncLogging.cpp): append, a round of
--     the thread, rolling, the last flush; AsyncLogging/Written, Rounds and Losses prove.
--     AsyncLogging/Threads is the writing thread among the others, as a step relation;
--     Threads/Ordered, Threads/Taking and Threads/Joined prove.
--   Logger (include/knetlib/Logger.h, src/Logger.cpp): where a line goes, with the logging
--     thread of AsyncLogging; Logger/Format is the text of a line, Logger/Lines and
--     Logger/Async prove.
--   ThreadPool (include/knetlib/ThreadPool.h, src/ThreadPool.cpp): the queue, its threads and
--     the notifications of the condition variable, as a step relation; ThreadPool/Counts
--     counts, ThreadPool/Tasks, Notified and Ends prove.
--   Connection (include/knetlib/Connection.h, src/Connection.cpp): the connection of the echo
--     server; Connection/Echo and Connection/Send prove.
--   Server (include/knetlib/Server.h, src/Server.cpp): the echo server; Server/Arrivals and
--     Server/Ends prove.
--   InetAddress (include/knetlib/InetAddress.h, src/InetAddress.cpp) and Socket
--     (include/knetlib/Socket.h, src/Socket.cpp, src/utils.cpp): addresses and their text, and
--     the calls that end the process on an error.
--   HttpServer (examples/benchmark_server.cpp): the parser of requests, the responses, and
--     which is sent. HttpServer/Scanning is about the parts of a text, Requests about the
--     parser; Written, Responses, Pages and Rejected about the answers, as a client reads
--     them.
--   EchoServer (examples/server.cpp): the reply to a message.
--   Client (examples/client.cpp): the input thread of the client among its callbacks and
--     signals, with the mutex that they share, as a step relation; Client/Lines and
--     Client/Leaving prove.
--
-- Bounds: a loop over a list is structural recursion on it. Two loops run on fuel: the writes
-- of `Connection.send` on the number of bytes and one more, as each write that succeeds takes
-- a byte, and the digits of a number on ten, as an int has no more, or on twenty for a size_t.
-- What runs for an unbounded time, a thread or a loop among threads, is a step relation. Times
-- are numbers of nanoseconds without a bound. A vector of bytes has at most 2 ^ 63 - 1
-- elements.
--
-- Not modelled: what is left behind when an object goes away while another thread has queued a
-- call of it; the log output of the operations, the names of connections, the opening and
-- closing of the descriptors of epoll, eventfd and timerfd, and the memory order of atomics;
-- the setters that only store a callback; the destructor of Server, and that of TcpClient
-- outside the loop's thread; in the examples the arguments of main, the output on the console
-- and, but for the client, the signals; the tests.
pub mod Common
pub mod Memory
pub mod Words
pub mod Sys
pub mod Buffer
pub mod Channel
pub mod Epoll
pub mod TcpConnection
pub mod Connection
pub mod Server
pub mod Connector
pub mod EventLoop
pub mod EventLoopThread
pub mod EventLoopThreadPool
pub mod ThreadPool
pub mod TimerQueue
pub mod TcpClient
pub mod Acceptor
pub mod TcpServerSingle
pub mod TcpServer
pub mod AsyncLogging
pub mod Logger
pub mod InetAddress
pub mod Socket
pub mod Text
pub mod HttpServer
pub mod EchoServer
pub mod Client

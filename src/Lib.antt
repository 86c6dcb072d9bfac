-- ===== src/Lib.antt =====
-- The core of minet, a small web server library: reading HTTP requests from byte streams and
-- writing responses to them.
--
-- minet/include/minet/common/Http.h and minet/src/common/Http.cpp: Http. Methods, versions and status
-- codes. A method is an enumerator, and a text a list of bytes.
--
-- minet/include/minet/core/HttpContext.h and minet/src/core/HttpContext.cpp: Request has the records
-- and their initial values, and Response.Printed the two ToString functions. Builder is
-- AsyncHttpContextBuilder over a buffered reader, its loop on fuel: one round more than there are
-- characters is enough. Async.Run has the same loop on characters that are already read, where no character
-- ends it: that NUL and bytes from 128 end the loop of the source is in Builder only.
--
-- minet/include/minet/utils/Parser.h and minet/src/utils/AsyncParser.cpp: Async. One definition for a
-- state's handler (parse_start to parse_body); feed is Feed. The parser holds the request that it
-- writes to. std::stoi is Stoi; it throws as the library's does, and Step is the result of a call that
-- may throw. Async.Wire is an independent description of requests on the wire, Async.Sound the
-- invariant of the states, and Async.Chunks is about input that comes in chunks.
--
-- minet/src/utils/Parser.cpp: Sync is the synchronous RequestParser over a buffered reader: Sync.Token
-- has the tokens, and Sync.Context both CreateHttpContext. Every loop takes the same fuel; more than
-- the length of the request is enough. Outcome is the result of a call that may throw, or leave the
-- defined behaviour of C++.
--
-- minet/src/io/Stream.h and Stream.cpp: Io.Stream is the interface, with what callers rely on;
-- Io.BufferInput and Io.Socket are the implementations. The system calls are a record System that
-- Io.Socket takes. Io.Source says when a stream holds some bytes and then ends, and
-- Io.BufferInput.Holds shows it of the in-memory stream.
--
-- minet/src/io/StreamReader.h and StreamReader.cpp: Io.Reader, over any stream. The loop of
-- Read(buffer, length) runs on fuel; two rounds are enough when the bytes are pending.
--
-- minet/src/io/StreamWriter.h and StreamWriter.cpp: Io.Writer, over any stream, with assertions
-- compiled out. The loop of Write(buffer, length) has two rounds at most, which is its fuel.
--
-- minet/src/utils/Parser.cpp: Path has CleanPath; none stands for its undefined cases.
--
-- minet/src/core/IRequestDispatcher.cpp, minet/src/components/RequestDispatcher.cpp and
-- minet/src/impl/DefaultHandlers.cpp: Dispatcher and Response. A handler is a function of the context
-- that also gives the context after it, since a handler that throws has changed it; there is no null handler. The streams are a
-- table from the numbers in the contexts. Response.write_response is _WriteResponse, Dispatcher.dispatch
-- is Dispatch, Dispatcher.invoke_handler _InvokeHandler and Dispatcher.destroy_context
-- DestroyHttpContext. Status codes are not negative, and log lines are left out.
-- Dispatcher.Handlers has RequestHandlerImpl for text requests and responses and the handlers of errors.
--
-- minet/src/threading/ThreadPool.h and ThreadPool.cpp: Pool, over an interface of what it uses of a
-- worker.
--
-- minet/src/threading/Queue.h: Queue. Push and Pop are atomic actions (Queue.advance) of any number of
-- threads (Queue.Threads), in sequentially consistent memory; compare_exchange_weak may fail without
-- reason. The list of the pushed data is kept beside the queue to say what is in it. A size_t wraps,
-- and what is shown of runs has fewer than 2 ^ 64 steps less the capacity.
--
-- minet/src/threading/Worker.h: Worker, over an interface of queues; what Queue does when calls of it overlap is
-- looked at there. The actions of a worker, of the thread of its donor and of those that post come in any
-- order, each as a whole.
--
-- minet/src/threading/Task.h: Task, for Task and ValueTask alike. A routine works on a world, and has run
-- when its thread is joined. Exceptions are the results of calls.
--
-- minet/src/utils/Network.cpp: Net, over a record of the system calls. Net.Opens says what is documented of
-- them: which descriptors they open and close.
--
-- minet/src/core/IServer.cpp: Server.Config, over what is used of the library for JSON.
-- minet/src/components/MayhemServer.cpp, BasicServer.cpp and ThreadedServer.cpp: Server has StartAsync and
-- Stop. Log lines are left out, and the task that StartAsync returns serves when the server runs.
-- Server.Events has the loop _Serve of MayhemServer.cpp, on fuel for its rounds and for the loop that accepts
-- connections: both run as long as the world lets them, so no fuel is enough. What is done with a connection,
-- and the thread pool, are a record of calls, Connections. Server.Handles says of the epoll and of these calls
-- which descriptors they watch, and follows the handles through the loop.
-- Server.Loops has _Serve of BasicServer.cpp and ThreadedServer.cpp, which are one loop with two bodies.
-- Server.Hands counts the descriptors that a server holds, and bounds its loads of _isRunning, which is the
-- fuel that is enough.
--
-- minet/src/common/Log.cpp, and minet/src/components/Logger.cpp and LoggerFactory.cpp: Logging, over what is
-- used of the libraries for JSON and for logging. The texts of exceptions are left out. Logging.Loads has which
-- configurations are loaded, Logging.Makes what a logger is made of, and Logging.Cache the factory.
--
-- minet/src/core/WebHostBuilder.cpp and WebHost.cpp: Host has the builder and what its container holds, with
-- Server, Dispatcher and Logging as its components. Call lists its member functions, which a program calls one
-- after the other; a call of exit is an outcome of its own. What the host and the builder share
-- is looked at up to Build. Host.Settings has why settings cannot be used, Host.Ready what the components are after UseAppSettings, Host.Kept what other
-- calls and Build make of them, and Host.Protocol the order of the calls.
--
-- minet/src/utils/Native.cpp: Native, over sigaction; Native.Runs counts how often handlers run. That the
-- system sets the disposition of a signal back when it is handled only once is left out.
--
-- Bytes are numbers below 256. Memory that the source leaves uninitialised is an argument of the
-- constructors. A stream object that several objects share is a number in a request, and is held by
-- the one reader or writer that is looked at elsewhere.
--
-- Not modelled: the move operations of the queue, JSON handlers, the banner, the wrappers of requests and responses, and recv and send.
pub mod Prelude
pub mod Http
pub mod Request
pub mod Stoi
pub mod Io
pub mod Async
pub mod Builder
pub mod Dispatcher
pub mod Host
pub mod Logging
pub mod Native
pub mod Net
pub mod Path
pub mod Pool
pub mod Queue
pub mod Response
pub mod Server
pub mod Sync
pub mod Task
pub mod Worker

-- ===== src/Lib.antt =====
-- micro_tcp: messages over secure TCP connections, with a server, a client and a console.
--
-- A message is two buffers: a content, and a header of 28 bytes, eighteen magic bytes and the size
-- of the content in ten columns. A client session writes the header and the content of a request
-- and reads a response; a server session reads a request, asks the request handler for the
-- response, writes it and reads on. Both start asynchronous operations of Boost.Asio and go on in
-- the handlers of their completions, which run on the threads of the manager. The server accepts
-- connections and starts a session for each; the client connects and keeps one active session. The
-- console of `main` calls the server and the client.
--
-- The files and what they model:
--   Common              results with exceptions, tests on numbers, lists measured by numbers
--   Stream              std::stringstream as the code uses it: width, skipws, numbers
--                       (Decimal: the digits of a number; Laws: reading a length field)
--   Message             include/micro_tcp/message.hpp and message.cpp
--                       (Header: writing and reading the header; Content: preparing the content)
--   World, Files        what is outside the program's objects, and include/micro_tcp/files.hpp
--   Handlers            include/micro_tcp/request_handler.hpp and response_handler.hpp
--   Platform            Boost.Asio: error codes, sockets, addresses, acceptors
--   Session             include/micro_tcp/session.hpp and session.cpp, with ServerSession and
--                       ClientSession for the derived classes of server_session.cpp and
--                       client_session.cpp, and Completion for the completion handlers, which are
--                       lambdas in the source (Invariant and Traces: every history of a session;
--                       Closing: how it ends; Transfer, Service, Exchange: what it transfers;
--                       Conversation: many exchanges; Life: a server session from its start to
--                       its end; Ending, Stopping, Releasing: the end behind `stop`; Writes: the
--                       files that are written; Throwing: exceptions; Adding: what a
--                       completion adds to what is pending)
--   Network             a client session and a server session with the two byte streams of a
--                       connection between them (Specification: what is sent and answered;
--                       History, Handing, Carried, Over, Account, Ends, Closing, Completing: one
--                       end; Invariant, Delivery: both ends; Handed: the calls of the handlers;
--                       Phases, Counts, Reading, Progress, Concluding, Turns, Liveness: that what
--                       was begun can be concluded)
--   IoManager           include/micro_tcp/io_manager.hpp and io_manager.cpp (Lifecycle: where the
--                       system starts the threads that are asked for; Calls: sequences of calls;
--                       Cuts: where it may fail to)
--   Server              include/micro_tcp/server.hpp and server.cpp (Settings, Accepting;
--                       Running, Serving: a server with all its sessions; Writes)
--   Client              include/micro_tcp/client.hpp and client.cpp (Calls; Echo: a file through
--                       client and server; Misuse: overlapping calls; Running, Careful: a
--                       client with all its sessions; Writes)
--   SecureData          include/micro_tcp/secure_data.hpp, and the TLS context of the server
--   Console             `main` in src/main.cpp: its objects, its loop and its end (Loop, Safety;
--                       Setup: the options, the configuration and the destruction; Startup;
--                       System, Life, Writes: the commands among the completions of all
--                       objects, and the files that they write; Ending, Late: the three calls at
--                       the end of `main`, with completions between them)
--   Tests               the theorems at concrete inputs, and runs of the definitions
--
-- A function of the source has the same name here. An object is a record, and a call takes it and
-- returns it. `pending` of a session, `accepting` of a server, and `resolving` and `connecting` of
-- a client are the asynchronous operations that are started and not completed; a completion is a
-- call of the handler with an error code and the bytes that were transferred, both arbitrary. An
-- exception is the result `throw`. The files and the output are the record World, which each object
-- carries; where objects run beside one another, a step of the relation Session.Traces.Step lets
-- the world change in between.
--
-- In Network a stream is the bytes that the peer has read, those that the connection has taken, and
-- those of the pending write that it has not; a step takes some bytes, completes an operation at one end,
-- sends a message, or stops the client's session. TCP is taken as delivering the bytes of a stream
-- in order, or a first part of them where an operation fails. `requests`, `handled` and `received`
-- record what was given to `send` and to the handlers; no operation of the program reads them.
--
-- Bounds: `std::size_t` has 64 bits; reading a number keeps the wrap-around of a negative one and
-- the largest value on overflow. The `max_size` of a vector of bytes is 2^63 - 1. The loop of
-- `main` runs on a number of rounds, and its theorems hold for every number. The end of a session
-- behind `stop` runs on a number of rounds, and 3 for each pending operation and 2 more are proved
-- to be enough. The recursion of Network/Liveness is on the completions that are left. Every other
-- recursion is on a list or on a number and ends. The `unsigned int` of `start` is any number here.
--
-- Not modelled: TLS and its contexts, which Boost.Asio and OpenSSL carry out; parsing the options
-- and the configuration, which Boost does and which the record Setup stands for, with no laws; time
-- stamps in the log; the capacity of vectors and a failing allocation; errors in the middle of
-- reading or writing a file; two threads inside one object at once, which the strand of a session
-- excludes for its handlers, and nothing excludes for the calls that `main` makes; each handler and
-- each command is a step here, and each of the three calls at the end of `main`. Operations of
-- Boost that can fail are the record Platform, with the laws that Boost documents as hypotheses.
--
-- Simplified: handlers are pure functions, so that an override that throws or keeps state between its
-- calls is not covered. A thread that cannot be started and a `reserve` that throws are modelled, as
-- the record Resources of a call of `start`; other allocations are taken to succeed. An uninitialised
-- number is the same one at each use (Platform.indeterminate). The host and the port that `connect`
-- is given go to the resolver and are left out. Every line of the input, the last one too, ends with
-- a newline; where a command is the last line and has none, the source takes the command itself for
-- the text that it reads behind it, and the model takes the empty text. The definitions
-- `console` and `finish` run with no completion beside them; System and Ending put completions
-- between the commands and between the calls of the end.
pub mod Common
pub mod Stream
pub mod Message
pub mod World
pub mod Files
pub mod Handlers
pub mod Platform
pub mod Session
pub mod Network
pub mod IoManager
pub mod Server
pub mod Client
pub mod SecureData
pub mod Console
pub mod Tests

-- ===== src/Lib.antt =====
-- A client and a server that exchange JSON messages in frames over TCP. The client and the server run
-- sessions; a session joins a socket with a connect handler, a transport handler and the message
-- factory, and a session manager holds the server's sessions by number. The server answers requests.
-- Errors of the network and of the JSON parser are codes that the error handler tells apart.
--
-- The parts, with the files here and the code, by path from the repository's root:
--   Errors, Errors.Codes        core/utils/lib/error_handler.cpp
--   Logger                      core/logger/lib/logger.cpp, log_event.cpp
--   Message and its children    core/message/lib (Serialize: serialize; FromJson: the constructors
--                               from JSON; Members: what the transport reads of an object)
--   MessageHandler              core/message_handler/lib (createMessage, addMessageOnMap, parse,
--                               serialize)
--   HandlerInvoker              core/handler_invoker/include/handler_invoker/handler_invoker.h
--   Connection, .Accept         core/connection/lib (connect, disconnect; accept, close)
--   Transport                   core/transport_handler/lib/transport_handler.cpp (Read.Stages: read,
--                               read_sync, read_async; Write: write)
--   Session, .Calls             core/session/lib/session.cpp
--   SessionManager              core/session/lib/session_manager.cpp
--   Worker, .Steps              core/worker/lib/worker.cpp
--   Configuration               core/configuration_handler/lib/configuration_handler.cpp
--   RequestResponse             core/request_response_handler/lib/request_response_handler.cpp
--   SegmentServer and children  server/lib/segment_server.cpp, segment_server_creator.cpp (itself:
--                               write and sessionWork; Members: the members, the setters and the IDs;
--                               Loop: start, stop, disconnect and the accept loop; Steps: histories)
--   SegmentClient, .Reads       client/lib/segment_client.cpp (start, connect, stop, write; the read
--                               loop)
--   ServerConsole and children  server/main.cpp (itself: the parser of a command line; Loop: the command
--                               loop; Waits: what allStop waits for; Configure: the servers of the
--                               configuration and their start)
--   ClientConsole               client/main.cpp
--   Interface                   clientserveriface/include/clientserveriface
--   Logger.Format               core/logger/lib/log_event.cpp (the printed line)
-- The modules named Laws, Order, Flush, RoundTrip, Once, Modes, Sizes, Rejects, Deliveries, Delivery,
-- Told, Failure, Fatal, Filter, Factory, Numbers, Destroy, Refinement, Bounds, Columns, Single, Stop,
-- Restart, Admission, Accepting, Ids, Shrinks, Parse, Ends, Stages, Stops, Settings and Boot hold
-- proofs; Base holds lists, texts, integers, numerals, exceptions and maps; Examples holds a concrete
-- JSON library, network and disk, on which the theorems are applied.
--
-- State is passed explicitly: a handler is a record of its members, where a callback is shown by
-- whether it is set, and a call returns the callbacks and log records that it makes, in order, as
-- events. A session interprets the events of its handlers, as the callbacks that it sets on them do.
-- The operations of a worker are the parts under its mutex, and a history is any sequence of calls and
-- of rounds of its thread. start and stop of the server are each split in two where another thread can
-- come in between, its accept loop where it waits for a client, and a history of the server is any
-- sequence of these parts, of writes and of errors of sessions; a null pointer that the code follows
-- is a place that the main thread does not leave. A console is a state machine on the lines entered,
-- the signal and the steps of the threads that main waits for. An accept in the mode Async ends in a
-- step of the session manager of its own; the histories of a server are those of the mode Sync, which
-- its constructor sets and the program keeps.
--
-- Parameters: Json.Platform is the JSON library with the conversions of floats, Network.Asio the
-- sockets of Boost.Asio, and Configuration.Disk the file system; each has the laws that the code
-- relies on. Memory that the code reads before it is written is an argument. A byte is a natural
-- number and a text a list of bytes; a uint32_t is sent in the order of a little-endian machine, and a
-- length is taken modulo 2^32. An asynchronous call other than accept is modelled with its completion
-- handler run on its report. Recursion is on lists and messages, but for the digits of a number, which
-- run on the number itself as fuel, and the decoder of Examples.Codec, which runs on the length of its
-- input; their round trips show both to be enough.
--
-- Not modelled: overlapping reads of one socket in the asynchronous mode; failures of memory
-- allocation; callbacks of the user that throw; the threads of io_context; timeouts and sleeps; the
-- calls that a task of a worker makes on the worker that runs it; the abstract creator classes.
pub mod Base
pub mod Errors
pub mod Json
pub mod Logger
pub mod Message
pub mod MessageHandler
pub mod HandlerInvoker
pub mod Network
pub mod Connection
pub mod Transport
pub mod Examples
pub mod Worker
pub mod Configuration
pub mod RequestResponse
pub mod SessionManager
pub mod Session
pub mod SegmentServer
pub mod SegmentClient
pub mod ServerConsole
pub mod ClientConsole
pub mod Interface

-- ===== src/Lib.antt =====
-- A model of WebSocketCpp, a WebSocket server and client library in C++, with its correctness
-- theorems.
--
-- How the program works. The server's socket has a slot for each client, whose worker gets what
-- arrives through a queue of buffers of the memory pool. The workers call back into
-- `WebSocketServer` for each client that connects, sends bytes or leaves; the callbacks put the
-- bytes into a queue of connections. A request thread looks through the queue: a connection without
-- a handshake has its bytes parsed as an HTTP request (`Request`, `HttpHeader`, with the searches
-- of `StringUtil`), one with a handshake as frames (`RequestWebSocket`). What is complete is taken
-- out of the bytes and handed to the routes' handlers, whose answers leave as frames
-- (`ResponseWebSocket`). The client side uses the same two classes of frames in the other
-- direction.
--
-- Which file models what:
--   Frame           include/common/common_ws.h: the two flag bytes, the extended length, the mask
--   Frame.Request   src/RequestWebSocket.cpp: `parse` is `Parse`, `frame` and `send` are `Send`
--   Frame.Response  src/ResponseWebSocket.cpp: `Parse`, `Send` and the writers
--   Server          src/WebSocketServer.cpp: `RequestData`, the queue and the work of the request
--                   thread; Server.Steps has the callbacks and rounds as steps in any order,
--                   Server.Messages is `ProcessWsRequest`, Server.Answering `ProcessRequest`
--   Request         src/Request.cpp: `Parse`, `ParseRequestLine`, `GetRequestSize`; Request.Writing
--                   is `Send`
--   HttpHeader      src/HttpHeader.cpp and include/Header.h
--   Route           src/Route.cpp: `Route.Parser.parse` is `Parse`, `is_match` is `IsMatch`;
--                   Route.Matching says what a path and its arguments should be
--   Client          src/WebSocketClient.cpp: `on_data_ready` is `OnDataReady`, `on_closed` is
--                   `OnClosed`; `handshake_header` is what `Open` puts into the request
--   Response        src/Response.cpp: `parse` is `Parse`; Response.Writing is `Send` with the
--                   answers that the server builds
--   Url             src/Url.cpp: `parse` is `Parse`, `to_string` is `ToString`; Url.Parts writes an
--                   address out of its parts, Url.Pairs a query out of its pairs
--   Text            src/utils/StringUtil.cpp: searches, comparison of names, trims; Text.Encode
--                   has `UrlEncode` and `UrlDecode`
--   Names           include/common/common.h, src/common.cpp, src/Header.cpp: the names of methods,
--                   protocols and headers, and the hash by which they are switched on
--   Base64          src/utils/Data.cpp: `Base64Encode`, `Base64Decode`
--   Socket          src/utils/ServerSocket.cpp and src/utils/ClientSocket.cpp: Socket.Server has the
--                   slots, `process_read` is `ProcessTask` with `HandleRead`, `take_slot` and
--                   `perform_task` are the two parts of a round of a worker; Socket.Server.Steps
--                   interleaves the threads; Socket.Client has the client's socket
--                   with its `ReadLoop`; Socket.Write is the loop of `Write` of both
--   Pool            src/wrappers/posix/MemoryPool.cpp
--   Base            what the others share
--
-- How state is modelled. A class is a record of its fields, a method a function from the record to
-- the record and the result. `size_t` is a natural number with its wrap-around at 2^64 written out
-- (`add64`, `sub64`); bytes are natural numbers, below 256 where a theorem needs it. A read outside
-- an array is a value of its own (`fault`, `broken` or `none`), never a default. Texts of errors
-- and the log are left out. Every method of the queue and of the pool holds its mutex throughout,
-- so that it is one step. The memory behind the pool's pointers is a function from addresses to
-- bytes.
--
-- Bounds. The loop of `Split` has the length of the data and one as fuel, since each round moves on
-- by at least one byte. The loop over a connection's frames has the number of its bytes as fuel,
-- since each frame that is taken is at least three bytes long; the client's loop has one more. The
-- search of a route behind an `Any` has as many rounds as there are positions left. `UrlDecode` has
-- the length of the text and one, as an escape that is read makes the text shorter; one that is not
-- read is a round for ever, so that running out of fuel is its own result. The loop over the chunks
-- of an answer has the length of the data and one. A worker of the server's socket has a number of
-- rounds, of which as many as it has tasks are enough. All are structural on the fuel. The limits
-- of `Config` are arguments; theorems on frames ask that they and a header fit into 2^64.
--
-- What is not modelled: TLS, the system calls that set up and end the server's socket and the
-- threads, files and the log, which only call the system; SHA-1, a copy of another project, and
-- zlib, which are parameters like `std::stoi`; answers that send a file, the sessions, and what
-- starts and stops the server. `Url` is an interface of `Request`, `Parse` of `Response` a
-- parameter of the client, and a route's `is_match`, which answers with the arguments that it
-- sets, one of the server. `Open` of the client runs beside the thread that reads without a lock
-- that both hold, so that only its headers are modelled. `Send` counts the bytes of a payload in
-- an `int`; the model has no such limit, so it speaks of payloads below 2^31 bytes. Bit-fields and
-- unions are laid out as on the little-endian targets that the library supports.
pub mod Base
pub mod Pool
pub mod Frame
pub mod Names
pub mod Socket
pub mod Text
pub mod Url
pub mod HttpHeader
pub mod Base64
pub mod Request
pub mod Response
pub mod Server
pub mod Route
pub mod Client

-- ===== src/Lib.antt =====
-- The WebSocket server of src/websocket_master: a model, and what holds of it.
--
-- The program is one process (or several that share nothing) with an epoll loop. The loop accepts
-- connections, reads bytes into the object of a connection, and lets the object act: it first takes
-- an HTTP request and answers it with the upgrade, then takes frames from its buffer. A text frame is
-- echoed and given to all other upgraded connections, a ping gets a pong, a close queues the
-- connection for closing. Output waits in a buffer until the kernel reports room.
--
-- The parts, with the files of the program under src/websocket_master:
--   Protocol   the constants of websocket_handler.h, websocket_request.h, websocket_handler.cpp
--   Request    Websocket_Request (websocket_request.cpp): `try_consume_frame`, `reset`, the getters
--   Respond    Websocket_Respond (websocket_respond.cpp): `pack_data`
--   Frame      no code: the frame of RFC 6455, section 5.2, which the two parts above are held against
--   Text       what the program uses of std::string, std::getline and std::map
--   Handler    Websocket_Handler (websocket_handler.cpp): the object, `append_read`,
--              `fetch_http_info`, `parse_str`
--   Network    Network_Interface (network_interface.cpp): the table of connections, the registered
--              clients, the queue of closes, and `append_outgoing` of Websocket_Handler
--   Session    `flush_writes`, `handle_one_frame` and `drive_io` of Websocket_Handler
--   Loop       `epoll_loop` of Network_Interface, in Loop/Setup its `init`
--   Startup    main.cpp, with the standard library's atoi, and `raise_nofile_limit_early` of
--              network_interface.cpp
--   TcpSocket  CTcpSocket of src/common/tcpSocket.cpp
--   StringCommon  the conversions of numbers in src/common/string_common.h
--   HttpClient CHttpclient of src/common/HttpClient.cpp: UrlCode (UrlEncode, UrlDecode), Params
--              (ParseParams, GetParam), Messages (parseHttpParameter, getHttpData and the texts of
--              the requests), Exchange (GetHttpRequest, PostHttpRequest), Iconv (stringIconv,
--              getCurrentTime)
--   Configure  CConfigure of src/common/Configure.cpp: one line, and in Configure/Reading the loops
--   Trace      CDebugTrace of src/common/debugtrace.h and .cpp: printing, in Trace/Files the log file
--              and TRACE, in Trace/Start initlog
--   Tools      src/websocket_master/Tools: FileTools and TimeTools, in Tools/Logs LogTools
--   Locks      CCriticalSection, CAutoLock and Conditional of src/common/CriticalSection.h and .cpp
--   Mongo      CMongodbConnection and its results, src/common/mongodb_wrapper.h and .cpp
--   LibNet     CLibNet of src/common/libNet.cpp
--   TypeHeader the numbers, hex texts and directories of src/common/_type.h
--   DebugLog   DEBUG_LOG of debug_log.cpp
--   Examples   samples
-- Of TcpSocket and the parts from StringCommon on, the server itself uses DebugLog only.
-- A child of a part (Request/Decode, Loop/Wakeup) has proofs about it.
--
-- State is passed on explicitly: an object is a record `Handler`, named by its descriptor, which is
-- its key in the table of the record `Network`. Each method of the source is the function of the same
-- name; a long method is cut into functions at its early returns. A call of the kernel that sets
-- something (epoll_ctl, close, fcntl, setsockopt) is added to `effects`, newest first. What the kernel
-- answers (accept, read, send, epoll_wait) is an argument, so that a theorem speaks of every answer.
-- The loop is seen as a state machine in Loop/Steps: its steps may come in any order.
--
-- Numbers: a byte is a number below 256, and the casts, shifts and masks of the source are written out
-- by `u8`, `u16`, `u64`, `<<<`, `>>>` and `%`. An int that is a descriptor is its 32-bit pattern;
-- `is_negative` reads its sign and `int_le` compares as the sort of the close queue does.
--
-- Fuel: the loop over frames runs on the length of the read buffer and one more. A frame has two bytes
-- or more, so that is enough. The loop of ParseParams runs on the length of its text and one more, the
-- loops over a configuration file, and of getConf, on the length of the file and one more: each round
-- takes a character. All other loops follow a list: the bytes, the clients, or the kernel's answers.
--
-- Parameters: the SHA-1 of sha1.cpp and the base64 of base64.cpp, copies of other projects' code, and
-- whether `malloc` succeeds, are fields of the record `Env`. The MongoDB driver is the record
-- `Driver`. What the resolver, the kernel and iconv give the HTTP client is an argument (`Kernel`, and
-- the arguments of `string_iconv`). `std::bad_alloc` is not modelled.
-- A condition of pthreads may wake a thread without a signal. miDataCount of Conditional, an int, is an
-- integer; an int holds it while the calls of `signal` and of `wait` differ by less than 2^31.
--
-- Not modelled: where the program logs, and `print`; the EINTR loop around epoll_wait, and its failures, which change
-- nothing; failures of epoll_ctl, which the code logs or ignores: a call is recorded whatever comes
-- of it, and Loop/Wakeup reads those as failed that add a descriptor which is watched already, or modify
-- one which is not; the fixed array of 1024 bytes that `parse_str` writes to, whose contents are the text here;
-- the byte before the line buffer that CConfigure reads for a blank line, taken not to be a backslash,
-- and NULs in its files; TraceFormat and AssertFail of CDebugTrace, which nothing calls without _DEBUG; the
-- conversions of string_common.h that go through sscanf or floating point; the test scripts; and the copies of JsonCpp and the MongoDB driver in src/common.
pub mod Prelude
pub mod Protocol
pub mod Request
pub mod Respond
pub mod Frame
pub mod Text
pub mod Handler
pub mod Network
pub mod Session
pub mod Loop
pub mod Startup
pub mod StringCommon
pub mod HttpClient
pub mod Configure
pub mod Trace
pub mod Tools
pub mod Locks
pub mod Mongo
pub mod LibNet
pub mod TypeHeader
pub mod DebugLog
pub mod TcpSocket
mod Examples

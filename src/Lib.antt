-- ===== src/Lib.antt =====
-- MaestroCore: the HTTP client library and the utilities that it stands on.
--
-- The program. `modules/src/http_client.c` is a client that runs as a task of a scheduler, or in
-- a loop for a blocking call: a state machine that connects, sends a request and reads the answer
-- from a non-blocking transport. It keeps what it reads in one buffer, which `buffer_append` of
-- `utils/src/string_utils.c` enlarges, and hands it to `modules/src/http_parser.c`, which cuts
-- request lines, status lines, header blocks and URLs out of it. Status lines are checked against
-- `utils/src/HTTPStatusCodes.c`. Below the client stand `modules/src/transport.c`, which opens a
-- connection for the scheme of a URL, and the two clients that it joins,
-- `modules/src/tcp_client.c` and `modules/src/tls_client.c`; the latter takes its trusted
-- certificates from `modules/src/tls_global_ca.c`. Beside the client stand
-- `modules/src/thread_pool.c`, which runs tasks on threads, `utils/src/time_utils.c` with the
-- calendar, `utils/src/config_handler.c`, the reader of configuration files,
-- `utils/src/file_utils.c`, which lists and reads files, and `modules/src/curl.c`, a second way
-- to fetch a page.
--
-- The files.
--   Base: native numbers, integers, lists and Boolean tests that all others share.
--   Memory: the allocator, as the environment's choice which requests it grants and a count of
--     the live blocks.
--   CString, Numbers: the functions of the C library that the code calls (strchr, strstr, strcmp,
--     strtol, strtoull) and the conversions of printf, with their round trips.
--   ErrorCode: `utils/include/maestroutils/error.h`.
--   HttpStatus: `utils/src/HTTPStatusCodes.c`.
--   StringUtils: `utils/src/string_utils.c`.
--   HttpParser: `modules/src/http_parser.c`, one child for each function: Scan for the searches,
--     Query and FirstLine for `http_parser_first_line`, Response for the status line, Headers, Url.
--   HttpClient: `modules/src/http_client.c`, one child for each group of work tasks: Connect,
--     Request, Response, Chunked, Body; Work is the dispatch, the blocking loop and the disposal,
--     Start the set-up of a client and the blocking calls.
--   LinkedList: `modules/src/linked_list.c`, on a heap of items by address.
--   Scheduler: `modules/src/scheduler.c`, the table of tasks.
--   ThreadPool: `modules/src/thread_pool.c`; System is the step relation of workers, callers and
--     users, Init the start of the pool, Disposal its end, Service the queue that the pool stands for.
--   TcpClient: `modules/src/tcp_client.c`; Init for connections that do not block, Blocking for those
--     that do, Transfer for the buffers and for sending.
--   TlsClient, TlsGlobalCa: `modules/src/tls_client.c` and `modules/src/tls_global_ca.c`.
--   Transport: `modules/src/transport.c`; the parent opens, Running reads, writes and closes.
--   TimeUtils: `utils/src/time_utils.c`; the parent holds `timegm`, Iso the texts of dates, Now the
--     functions of the present time.
--   ConfigHandler: `utils/src/config_handler.c`.
--   FileUtils: `utils/src/file_utils.c`.
--   Curl: `modules/src/curl.c`.
--   Tests: concrete runs.
--
-- The correspondence. A function keeps its name without the prefix `http_parser_` or
-- `http_client_`. A pointer to a string is an `Option`, a buffer with its size is a list of
-- bytes, a linked list is, for its users, a list. A work task gives the next state with the
-- client and the heap, or `undefined` where the C code leaves an array or follows NULL. What the
-- transport and the clock answer is a `World`, an argument of the step: one step calls the
-- transport at most once for each of its functions.
--
-- The thread pool is a step relation: one step for each section of `tp_worker`, `tp_task_add` and
-- `tp_wait` that holds the mutex, for the first of `tp_dispose`, and for each call of a task, in
-- any order; a signal wakes any one sleeper, and a sleeper may wake by itself. The joins of
-- `tp_dispose` and its second section are a function on the state that the steps have come to. A
-- socket is an entry in a table of open descriptors, with its mode. What the kernel, the
-- resolver, the TLS library and libcurl answer are arguments, one for each call. A TLS client
-- records what has been set up, in the place of the library's contexts. In TimeUtils `none`
-- stands for what C leaves undefined: an overflow of `int`, or a place outside of a table. A
-- configuration file is its bytes, read by `fgets` in pieces of at most 511; a directory is its
-- entries in the order of `readdir`.
--
-- Bounds. `http_parser_headers` and the loop over query parameters recurse on fuel, one more than
-- the bytes of the buffer, which is enough, since each round consumes at least one byte. The loop
-- of `linked_list_items_dispose` needs one round more than there are items. The blocking loop,
-- which in C has no bound, runs on fuel and answers `running` when it is out. The handshake loop
-- of `transport_init` is unbounded in C as well, and has the result `none` when its fuel is out.
-- The loop of `tcp_client_write` needs one round more than the bytes and the interrupted calls
-- together. The loops over a configuration file take one round more than it has bytes. Buffers
-- are shorter than 2^31 bytes, so that the casts of indices to `int` change nothing; the casts
-- that do matter, of the chunk size, of the length of the request and of the clock, are written
-- out.
--
-- Not modelled. Tests of arguments for NULL, the blocks of the thread pool's tasks, output to the
-- terminal, the log of `utils/src/file_logging.c`, `utc_offset_hours`, which computes on
-- floating-point numbers, `utils/src/json_utils.c`, which only calls an external library, and
-- `modules/src/tls_ca_bundle.c`, which is one string. `static HTTPClientState last` of
-- `http_client_taskwork` has no effect.
pub mod Base
pub mod Memory
pub mod CString
pub mod ErrorCode
pub mod HttpStatus
pub mod Numbers
pub mod StringUtils
pub mod HttpParser
pub mod HttpClient
pub mod LinkedList
pub mod Scheduler
pub mod ThreadPool
pub mod TcpClient
pub mod TlsGlobalCa
pub mod TlsClient
pub mod Transport
pub mod TimeUtils
pub mod ConfigHandler
pub mod FileUtils
pub mod Curl
pub mod Tests

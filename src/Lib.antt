-- ===== src/Lib.antt =====
-- A model of wrensong-http-server: the parts of the server that carry its own logic.
--
-- The program accepts connections (src/server.c), gives each one a libevent buffer whose read event
-- copies the bytes of a request (src/http.c), and hands the connection to a pool of threads
-- (lib/pthread_pool.c), which parses the request in place. It is configured by an ini file
-- (lib/tconfig.c) and has a growable string (src/bstring.c). An earlier handler, which answers the
-- requests that it parses, is in src/old.c.
--
-- * Exec, Cstring: how a run of C code ends (with a value, by leaving the program, or in undefined
--   behaviour), arrays with their bounds, and the functions of the C library that the code calls.
--   Reading or writing outside of an array and following a null or dangling pointer give `fault`.
-- * Bstring (src/bstring.c): the block as a list of bytes, some not written yet, and an allocator
--   that may refuse. `unsigned int` and `size_t` arithmetic wraps. Bstring/Contents says when a
--   string holds a text; Bstring/Append and Bstring/Init are about the operations, Bstring/Data
--   about reading the bytes of a string.
-- * Config (lib/tconfig.c, lib/tconfig.h): Config/Problem is `_ini_error`, Config/Table the table
--   with its arrays, Config/Sink what the reader writes to, Config/Reader `_ini_read` one character
--   at a time, Config/Writer the writer.
--   Config/Reader/Buffer, Rounds and Line follow the reader over a word, a character and a line.
--   Config/Reader/Safe follows the reader over files of any content and its buffer, with
--   Config/Reader/Sound, Terminated, Within and LineEnd. Config/Reader/Overflow is about comments
--   that do not fit, Config/Reader/Comment about those that do, Config/Reader/LastLine about a last
--   line without its end. Config/RoundTrip reads what is written. A message is a constructor with
--   the text that it quotes, before `snprintf` cuts it to 255 bytes. Config/Table/Destroy is about
--   the memory that `ini_table_destroy` frees. Config/Interface is lib/tconfig.h as a record of
--   operations and laws, which Config/Interface/Filled fills with the library, and
--   Config/Interface/Client is a client of it, which Config/Interface/Stored runs over the library.
--   Allocation succeeds here, and the counters `position`, `spaces` and `line` do not wrap.
-- * Http (src/http.c, src/server.h): Http/Message has the types, Http/Parse the parsing part of
--   `_handle_connection`, where `strsep` writes into the buffer and a pointer is an index,
--   Http/Connection the handlers, whose calls of libevent, uthash, the pool and `free` are effects.
--   Http/Spec says what a request means without buffers; Http/Headers, Http/RequestLine and
--   Http/RoundTrip relate the two, Http/RoundTrip/Malformed is about texts that are no requests,
--   and Http/Connection/Served about the handlers in their order. Http/Threads has the event loop
--   and the pool that `http_start` begins and `http_end` ends, Http/Threads/Lifetime the way from
--   one to the other.
-- * Pool (lib/pthread_pool.c): Pool/Queue has the critical sections over a heap of nodes,
--   Pool/Chain relates the linked queue to a list, Pool/Threads has the threads, the callers of
--   `pool_enqueue` and the flag that `pool_end` sets as steps that interleave in any order,
--   Pool/Invariant and Pool/Safety what holds in every state reached, Pool/Drain the loop of
--   `pool_end`. Pool/Awake, Pool/Progress and Pool/End are about the threads that are up, the work
--   that they have to go, and what the callers of `pool_wait` and `pool_end` wait for. Pool/Signals has the condition with
--   its signals and broadcasts, and the callers of `pool_wait` that share it with the threads:
--   Pool/Signals/Kept is its invariant, Pool/Signals/Drains and Ends are about the end of the work
--   and of the threads. Pool/Start is about the block that `pool_start` asks for, and the `int` that
--   counts its threads. Pool/Interface is lib/pthread_pool.h as a record of operations and laws, filled in
--   Pool/Interface/Filled, with a client in Pool/Interface/Client, which Pool/Interface/Handed runs
--   over the pool.
-- * Server (src/server.c): the settings, the accept and update events and the exit; Server/Written
--   takes the configuration from the file to the settings, and Server/Main is `main` as the calls
--   that it makes.
-- * Legacy (src/old.c): Legacy/World is what the handler asks of the code around it, Legacy/Receive
--   the parsing and the body, Legacy/Respond the answers, Legacy/Handler the handler as a whole
--   with its cleanup. Legacy/Headers and Legacy/Parsed hold the parser to the text of a request,
--   and Legacy/Answered, Legacy/Fetched and Legacy/Created the handler from the first byte to the
--   last, for the answers without a file, for a GET of a file and for a POST, in the frame of
--   Legacy/Frame around the answer; Legacy/Posted is about the answer to a POST. Legacy/Filename
--   follows the shared file name through it, with Legacy/Keeps, and Legacy/Lengths the buffer;
--   Legacy/Files, Legacy/Body, Legacy/Download, Legacy/Memory, Legacy/Decimal, Legacy/Texts,
--   Legacy/BodyLength and Legacy/Empty are about the answers. A read of a file is whole, or it is
--   short and leaves other bytes in the buffer, or it fails; a call of `send` is recorded with its
--   bytes whatever it answers. One handler runs at a time; its `printf` lines are not recorded.
--   `conn_fd`, which is not declared in the source, is taken to be what the argument points to, and
--   `swrapReceive` and `http_get_header`, which are not defined, are parameters.
--
-- Bounds and fuel: the loop over headers has the 128 rounds of the code, and the loop of `pool_end`
-- runs on fuel, where one round more than there are nodes is enough. The loop over a file has as
-- many rounds as the file has bytes, and a number below 2^64 at most 20 digits. The other loops are
-- recursions on the text or the list. In Pool/Threads a thread may wake at any time, in
-- Pool/Signals only by a signal or a broadcast.
--
-- Not modelled: the copies of Wren and of uthash under lib/, libevent, `HttpApplication`, which no
-- code uses, and src/http.h, which is empty.
pub mod Prelude
pub mod Exec
pub mod Cstring
pub mod Bstring
pub mod Config
pub mod Http
pub mod Pool
pub mod Server
pub mod Legacy

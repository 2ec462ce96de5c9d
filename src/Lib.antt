-- ===== src/Lib.antt =====
-- highway is an HTTP server library in C. This development models its core (core/src), the
-- servlet layer that reads requests and writes responses on top of it (servlet/src), its start-up
-- (boot/src), and what the programs in C under examples do with it.
--
-- How C is modelled:
-- - A pointer into text is the list of bytes from it to the end of the object that it points into,
--   so a read past the end is visible. A call comes to an `Outcome` (Prelude.Calls): `ret`, `fault`
--   for undefined behaviour (a read or write outside an object, a signed overflow, a null pointer),
--   or `hang` for a loop that runs out of the rounds that its model allows.
-- - `unsigned int` is a number with its wrap-around written out; `int` is the ℤ of Prelude.Int, and a
--   size that cannot be negative is a number.
-- - The operating system is the record `Env` (Env): `recv`, `send`, `realloc` and the two build
--   limits. What is documented of `recv` and `send` is the record `Laws`. For the listening socket
--   the answers of the system calls are arguments.
-- - Assertions are compiled out (NDEBUG), and log calls are left out.
--
-- The files, and the code that they model:
-- - Text: the string views of core/src/hiw_std.c (hiw_string_cmp, cmpc, readline, rtrim, trim, suffix,
--   split).
-- - Number: hiw_std_ctoui, hiw_std_ctoi, hiw_std_uitoc and their string versions in core/src/hiw_std.c.
-- - Memory: hiw_memory, hiw_std_mempy, hiw_std_copy and hiw_std_copy0 in core/src/hiw_std.c.
-- - Mimetypes: core/src/hiw_mimetypes.c.
-- - Client: hiw_socket_recv, hiw_socket_recv_all and hiw_socket_send of core/src/hiw_socket.c, and
--   hiw_client_recv and hiw_client_sendall of core/src/hiw_server.c.
-- - Server: hiw_socket_listen and hiw_socket_accept of core/src/hiw_socket.c, and the server and its
--   clients in core/src/hiw_server.c.
-- - Request: struct hiw_request, its reset, the status line, the header loops (Request.Headers) and
--   hiw_request_recv (Request.Body) of servlet/src/hiw_servlet.c.
-- - Response: struct hiw_response, the header block and (Response.Send) the sends of
--   servlet/src/hiw_servlet.c.
-- - Servlet: the filter chain and hiw_servlet_start_filter_chain of servlet/src/hiw_servlet.c.
--   Servlet.Lifecycle is the servlet itself, its threads and its deletion.
-- - FileContent: the traversal of a file tree in servlet/src/hiw_file_content.c.
-- - Boot: start-up and shutdown in boot/src/hiw_boot.c.
-- - Thread, Pool: threads and their contexts, a pool worker's queue (Pool), its thread between the
--   pushes (Pool.Turns), and the workers of a pool (Pool.Ring) in core/src/hiw_thread.c.
-- - Examples: the servlet functions of examples/hello_world/main.c and examples/boot/main.c, and
--   the cache of files and the servlet function of examples/static (Examples.Static).
-- - Tests: each theorem at a concrete input.
-- A servlet thread (Servlet) reads a request (Request) from a client (Client) that the server
-- (Server) accepted, hands it to the filters, and flushes the response (Response); both keep their
-- text in a fixed block (Memory) and take it apart as views (Text, Number).
--
-- Rounds: hiw_client_sendall is given one more than the number of bytes to send, since each round
-- sends at least one. The header loops are given one more than HIW_MAX_HEADER_SIZE rounds, since each
-- reads at least one byte, and the lines of a chunk one more than it has bytes. The loop of
-- hiw_memory_resize is given 2 ^ 33, more than there are values of int. The requests of one client
-- are served for a number of rounds that is an argument.
-- A traversal is given one level of recursion more than HIW_MAX_PATH, since each directory makes the
-- path a byte longer. The loops over a pool's workers and its works take a number of rounds.
--
-- Not modelled: the text of a client's address; the calls that enter and leave a lock and that
-- notify, which are the operating system's (a section under a lock is one step,
-- and a run ends at a push that races with what a thread reads outside of the lock); the branches for
-- Windows; main and hiw_boot_pre_start (boot/src/hiw_boot.c), which call the application; the set-up
-- of the platform and the log (core/src/highway.c); the main functions of the examples with what they
-- read from the command line, static_cache_release, and the example in C++ (examples/jc). In
-- hiw_request and hiw_response the pointers to the thread and the client are left out: the connection
-- is passed beside them. The memory of an object is modelled where its lifetime matters: the workers
-- of a pool, the works of a worker, the blocks of text.
pub mod Prelude
pub mod Text
pub mod Number
pub mod Memory
pub mod Mimetypes
pub mod Env
pub mod FileContent
pub mod Client
pub mod Request
pub mod Response
pub mod Server
pub mod Servlet
pub mod Thread
pub mod Pool
pub mod Boot
pub mod Examples
pub mod Tests

-- ===== src/Lib.antt =====
-- tinyproxy: a forwarding proxy for TCP, UDP and UNIX sockets, configured by routes.
--
-- The program reads its routes from a file or from the command line (src/file_conf.c), each a
-- listen endpoint, an upstream endpoint and options (src/endpoint.c, src/route.c), and serves
-- each route with listeners and workers. The model follows the sources:
--
--   * Base: lists, results and error numbers that the other modules share.
--   * Text: the C string functions that the parsers call. Strings are lists of bytes without the
--     final NUL. Text.Numbers has strtoul and strtol, for 64-bit `unsigned long` and `long`, and
--     parse_port and parse_positive_int of src/file_conf.c.
--   * Builtin: src/x_builtins.c, the upstreams that the proxy answers by itself.
--   * Log: src/klog.c and src/klog.h, the lines of the log, with a reader of them in Log.Line.
--   * Endpoint and Route: src/endpoint.c, src/route.c and validate_route of src/route_runtime.c.
--   * Conf: src/file_conf.c. Conf.Address parses one endpoint, Conf.Line one line,
--     Conf.Loader runs load_routes_from_text, and Conf.File reads the file for it. Memory (sizeof,
--     realloc) and the calls on the file are parameters.
--   * Sniff: src/stream_sniff.c. Sniff.Reader gives the reads at a checked position, Sniff.Hello
--     the parser of the ClientHello, and Sniff.Peek the state that a connection keeps.
--     evbuffer_copyout of libevent is a parameter.
--
--   * Proxy: src/proxy_proto_v2.c, the PROXY protocol header, with a reader of the protocol in
--     Proxy.Decoder. Sockaddr holds what the code reads of a `struct sockaddr`.
--   * Worker: src/worker.c, the queue of a worker. Its functions are in Worker; Worker.Steps has
--     the interleavings of the threads that use it, a step for what happens under one lock or in
--     one system call, errors of send included, and Worker.Sockets the client sockets that its messages own. The result
--     of each system call is a parameter.
--   * Pool: src/worker_pool.c, and accept_cb of src/stream_listener.c, which hands a client to the
--     worker whose turn it is. Pool.Ends stops, joins and frees the workers.
--   * Pipe: src/stream_pipe.c, with finish_client_write of src/stream_conn.c. The bufferevents of
--     libevent are the record Libevent of Pipe, and Pipe.Ways states what libevent documents of
--     them. Pipe.Flow has the interleavings of the callbacks with the reads and writes of
--     libevent, and Pipe.Idle the idle timer of src/stream_conn.c. Pipe.Events has the event
--     callbacks of src/stream_conn.c, with the end of a response in Pipe.Events.Drain, and
--     Pipe.Adopt has worker_adopt_client_fd, with the header that an upstream gets first.
--   * StreamFile: src/stream_file.c, a client that gets a file; and StreamBuiltin:
--     src/stream_builtin.c, a client that the proxy answers by itself. Their steps are the writes of
--     libevent and its calls of the callbacks, in any order.
--   * Stream: the listening socket of a stream route, in src/stream_listener.c and src/stream_route.c.
--   * Runtime: src/route_runtime.c, a route of either kind from its start to its end.
--   * Program: main of src/tinyproxy.c and src/signals.c. Program.CommandLine has the options,
--     with getopt of libc; Program.Start what main starts, each call with its jump to `out`; and
--     Program the code at `out`. main logs its calls, and Program.Order says what each call needs:
--     a list of calls is replayed on the parts that are there. What workers do with a route's context
--     while they run, and how many messages a worker's thread still processes before it ends, are
--     parameters. The sockets of the connections that workers make for stream routes are in no
--     context, and no list of a route's sockets counts them.
--   * Bind: src/bind.c. What each call of bind does is a parameter.
--   * Datagram: the datagram routes. Datagram.Client has the clients of src/datagram_client.c, each
--     with the socket that the code makes for it; Datagram.Packet the way of a packet and of a reply in
--     src/datagram_listener.c, src/datagram_client.c and src/datagram_builtin.c; Datagram.Raw
--     src/datagram_raw.c, with a reader of UDP over IPv4 in Datagram.Raw.Read; Datagram.Listener
--     the sockets that listen; and Datagram.Lifecycle the start and the end of a route in
--     src/datagram_route.c. The results of the system calls are records of parameters, and the
--     sockets that are opened and closed are lists in the state. A `struct sockaddr_storage` is
--     the list of its bytes, on a little-endian machine.
--
-- A connection goes from accept_cb through worker_pool_next and worker_enqueue_stream_client to the
-- queue of a worker, which owns its socket until the thread of the worker processes the message
-- and adopts it as a pipe. A packet goes from listen_read_cb the same way; the worker that gets it
-- removes the idle clients of its route and forwards the packet for the client of its address, under
-- the lock of the route, so that the workers' calls are steps in some order.
--
-- Loops whose end is not structural take rounds: the lines of a text one round for each byte
-- and one more, the extensions of a ClientHello one for each byte of the message and one more,
-- the names of a list likewise, and drain_notify_fd one for each byte and one more.
-- bind_with_wait takes ten rounds for each second and one more, and the loop of checksum16 that
-- adds the carries two. A run that is out of rounds is a value of its own. Line numbers wrap at
-- 2^32. The loop of file_write_cb has a round for each byte that is left of the file, and one
-- more.
--
-- A packet that is sent stands with the descriptor that it is given to. The line that the builtin
-- log_conn logs is part of what x_builtin_handle gives; the other lines that are logged are left out.
--
-- Not modelled: the sockets and the event loop, the texts of the usage and of the version, the
-- environment, the compatibility layer for threads, and what the sources do on Windows; nor the
-- fuzzers, tests and tools. Where a socket is bound or connected, the error of
-- endpoint_to_sockaddr is a parameter.
pub mod Base
pub mod Text
pub mod Builtin
pub mod Endpoint
pub mod Route
pub mod Conf
pub mod Sniff
pub mod Bind
pub mod Datagram
pub mod Log
pub mod Pipe
pub mod Pool
pub mod Program
pub mod Proxy
pub mod Runtime
pub mod Stream
pub mod StreamBuiltin
pub mod StreamFile
pub mod Worker

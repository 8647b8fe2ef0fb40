-- ===== src/Lib.antt =====
-- camlite, a small HTTP server for one or more webcams: src/*.c.
--
-- The program is one thread round epoll. src/pevent.c wraps a descriptor and what epoll watches for
-- on it; src/http.c reads requests, builds answers and sends them through a buffer for each
-- connection; src/camhttp.c answers the requests and asks src/video_manager.c for the devices, which
-- src/v4l2port.c drives.
--
-- The files and what they model:
--   Base (with Base/Tests, Base/Lists): numbers, tests and lists that the modules share.
--   Kernel: the calls of epoll, of sockets and of the tables of uthash.h, with the kernel's answers. A
--     run is the log of its calls, newest first. A `Kernel` answers each call from the history, so a
--     theorem holds for every order and every failure of the answers; `IsPosix` is what the manual
--     pages promise of the counts of read and write. `watched`, `sent` and `closings` read the log.
--   Libc: sscanf, snprintf, strncpy, strstr and C strings, as far as the program uses them;
--     Libc/Numbers atoi, strtol and the numbers of scanf and printf.
--   Memory: fmalloc_impl and frealloc_impl of src/util.c, and memcpy, on blocks of bytes.
--   Util: src/util.c. read_memory_status and read_cpu_jiffies on the contents of the files of /proc,
--     time_diff, gettickcount; Util/Allocations the list of meminfo_add and meminfo_del.
--   Pevent: src/pevent.c. `new`, `set`, `signal`, `free`, `free_no_close`, `read`, `write` are the
--     functions pevent_new and so on; a function that changes `*pevent` returns the new record.
--     Pevent/Loop, Pevent/Rounds: src/pevent_base.c, pevent_base_loop on the events that epoll_wait gives.
--   Kernel/Quiet, Pevent/Apart, Http/Apart, V4l2/Apart, VideoManager/Apart: which calls leave a descriptor alone. An
--     `IsOpener` kernel gives no descriptor from open that epoll watches.
--   Http: src/http.c. Http.antt has the records and http_client_new, _free, _clear_request and
--     _set_delay; Http/Send http_client_send and on_write; Http/Response http_response_new to
--     http_response_compile; Http/Parse http_request_parse_line; Http/Read on_read. A handler
--     returns the connection, or `none` where the C function has freed it. The request callback is
--     an argument, with its own state.
--   Server: src/http.c. http_server_create, _start, _stop, _keeplive_delay_iter, set_nonblocking and
--     on_accept; Server/Dispatch on_event, for an event of a connection that lives. The table of
--     connections is a list in the order of HASH_ITER; Server/Arrivals, /Serving and /Frames are about the whole
--     table on each event; the queue that accept reads is an argument, and
--     at its end accept says EAGAIN.
--   V4l2: src/v4l2port.c. V4l2.antt has v4l2port_new and _mmap_release; V4l2/Mmap
--     v4l2port_mmap_init; V4l2/Streaming v4l2port_stream and _uninit; V4l2/Init v4l2port_init,
--     _set_param and _get_param; V4l2/Capture v4l2port_read. A result that is an Option is `none`
--     where the C code reaches past the end of `reqbufs`.
--   VideoManager: src/video_manager.c. VideoManager.antt has the table, video_manager_stream_start,
--     _init_video, _add, _get, _set_check_time and _cleanup; VideoManager/Events on_video_event.
--   Camhttp: src/camhttp.c. Camhttp.antt has hex2string; Camhttp/Parameters get_http_parameter;
--     Camhttp/Digests check_digest_expire, new_digest and on_check_digest on the table of nonces, a list in
--     the order of HASH_ITER; Camhttp/Pages the pages and on_reuqest; Camhttp/Frames camhttp_on_send_jpeg and
--     camhttp_on_video_read; Camhttp/Service camhttp_start and camhttp_stop. MD5 and inet_addr are an
--     argument, `Outside`.
--   Program: src/camlite.c. Program.antt has the callbacks of the event loop on the state of the whole
--     program, with `none` where a callback finds its block freed or the program leaves its arrays; Program/Main main
--     and signal_handler; Program/Cameras, /Keeping and /Rounds a frame, an event and the rounds of the loop.
--   Tests: the theorems at inputs that meet their hypotheses, and runs of the code.
--
-- Bounds. An `int` that is a size or an index is a natural number: sizes stay below 2^31, since a
-- buffer holds up to 200 KB. The indices that the video manager is given may be negative. The
-- loops of on_read and on_write run on fuel, one more than the bytes that can still be read or are left to write; each round but the last moves a byte or more. A
-- time of the last check is kept as an unsigned int, modulo 2^32; time_t has 64 bits, so that the difference of time(NULL) and
-- an unsigned int is signed and does not wrap. A use of a place of `videos` past its end is `none`, as one before it. atoi and %d keep the low 32 bits of a
-- long, and strtol is held to the range of a long. A count of a nonce's uses is below 2^31.
-- A result of the pages that is `none` stands for an access out of an array: request_callback then answers
-- nothing and gives up its state.
--
-- Not modelled: what fmalloc does without memory (it ends the process), the log lines on standard
-- error, and the tables of uthash.h, whose calls stand in the log or whose entries are lists.
-- src/md5.c is a copy of a MooseFS file, and uthash.h of the uthash library. meminfo_printf only prints, and
-- the fxalloc_report functions are compiled in only for reports.
pub mod Base
pub mod Kernel
pub mod Libc
pub mod Memory
pub mod Util
pub mod Pevent
pub mod Http
pub mod Server
pub mod V4l2
pub mod VideoManager
pub mod Camhttp
pub mod Program
pub mod Tests

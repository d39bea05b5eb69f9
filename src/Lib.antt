-- ===== src/Lib.antt =====
-- Shared-memory inter-process communication between a parent and a child process:
-- torrent/system/ipc, the poll of torrent/system, the descriptors and socket addresses of
-- torrent/net, and the two processes that use them.
--
-- A Channel is a ring of records in memory that two processes share; one of them writes and the
-- other reads. A Router has one channel to read and one to write, and hands each record to the
-- handler that is registered under the record's id. A Segment is the memory of a channel; the
-- RouterFactory makes both segments before a fork, and the router of each side behind it. Beside
-- the channels, a ControlFd carries shutdown and error messages on a socket, and a WakeupFd wakes a
-- reader that polls.
--
-- Files, and what they model:
--   Base, Memory      shared names and lemmas, exceptions as values, memory as bytes by offset
--   Channel           torrent/system/ipc/channel.h and channel.cc, all of it; a header pointer is its
--                     offset from m_addr, `write` is cut into write_from, write_at, write_behind,
--                     write_between, write_second and publish along its branches
--   Channel/Layout    the records that a channel holds, and what a valid channel is
--   Channel/Stream    one writer and one reader as a step relation, in which the writer uses an offset
--                     of the reader that may be out of date
--   Router            torrent/system/ipc/router.h and router.cc: registration, close and write;
--                     Router/Reading has process_reads
--   Router/Polling    the reader around its poll against a writer, as a step relation in which a store
--                     of the reader may wait in its store buffer
--   Router/Fds        the constructor, open_fds, close_fds and send_fatal_error, on the events of a poll
--   Control           torrent/system/ipc/control_fd.h and control_fd.cc: framing, shutdown messages and
--                     the liveness tests; Control/Linux has event_read on Linux
--   Wakeup            torrent/system/ipc/wakeup_fd.h and wakeup_fd.cc; Wakeup/EventFd has the build
--                     with an eventfd
--   Segment           torrent/system/ipc/segment.h and segment.cc
--   Factory           torrent/system/ipc/factory.cc: the two functions that make the routers;
--                     Factory/Initialize has initialize and WakeupFd::create_fd_pair
--   Poll              torrent/system/poll_kqueue.cc: the table of events, masks and changes;
--                     Poll/Process has process, Poll/Waiting the wait and do_interrupt, Poll/Create
--                     the making of a poll, and Poll/Uses handlers as programs that call the poll
--   Fd                torrent/net/fd.h and fd.cc: Fd has the system calls and the monad over them,
--                     Fd/Open, Fd/Options and Fd/Endpoint the functions, and Fd/Platforms the branches
--                     for other platforms
--   Shutdown          main.cc, parent.cc and child.cc: the shutdown of the two loops and their
--                     time-outs; Shutdown/Protocol has both processes side by side
--   Demo              parent.cc, child.cc and main.cc: the handlers of both processes and the channels
--                     that they open; Demo/Loop has parent_process and child_process as wholes,
--                     Demo/Both the turns of both side by side, Demo/Wire what one reads of the bytes
--                     that the other sends on the control descriptor, Demo/Startup the routers and channels
--                     from main's factory on, and Demo/Main the rest of main.cc: create_router, do_panic,
--                     check_socket_closed and main as a whole;
--                     Demo/Signals has what stands for each signal
--   Event             torrent/system/event.h and event.cc: the descriptor of an event, its name, and
--                     errno_enum
--   Net               torrent/net/socket_address.h and socket_address.cc; Net/Pointers has the overloads
--                     for unique pointers, and Net/Union the copy to the union of torrent/net/types.h
--   Thread            torrent/system/thread.h, a stub
--   Exceptions        exceptions.cc: the message and the back trace of an internal_error
-- The other files in these directories hold the proofs, and the files Tests the runs on small inputs.
--
-- Functions that change an object return the new one beside an Outcome, which says whether they
-- returned or threw; where an exception leaves an object changed, so does the model. 32-bit sums and
-- differences in the channel wrap around (add32, sub32). The build is that for kqueue: a
-- little-endian host, cache lines of 64 bytes, no eventfd and no __linux__; in fd.cc that for macOS.
-- Fd/Platforms, Control/Linux and Wakeup/EventFd have what the other builds do otherwise.
--
-- Loops: register_handler has 2 ^ 28 + 1 rounds of fuel, and an id of 2 ^ 28 is refused, so that it
-- never runs out. process_reads takes any fuel; one round more than there are messages is enough
-- where the writer does not stand at the end of the buffer. The loops on sockets run along the list
-- of what the system calls answer.
--
-- Parameters: what handlers do, the result of send_interrupt in Router::write, the answers of
-- mmap, munmap, recv, send, read, write, kevent, getaddrinfo and inet_ntop, the success of
-- fd_set_close_on_exec in the factory and in WakeupFd, and in Fd the answer of the system to each call
-- behind the calls before it; in Event the numbers of errno.h and the text of an int; in Demo/Loop the
-- times, what the handlers of the control descriptor read, and what handlers do to the poll; in
-- Demo/Main the answer of fork; and what backtrace, backtrace_symbols and std::from_chars give.
--
-- Not modelled: memory orderings, except for the store buffer in Router/Polling (elsewhere each load
-- and store of an offset is one step); accept4, pipe2, SOCK_CLOEXEC and the non-blocking sockets of the
-- factory on Linux; fork and the system's own actions on signals; logging, output and sleep_for.
pub mod Base
pub mod Memory
pub mod Channel
pub mod Router
pub mod Control
pub mod Wakeup
pub mod Segment
pub mod Factory
pub mod Poll
pub mod Fd
pub mod Net
pub mod Shutdown
pub mod Thread
pub mod Exceptions
pub mod Demo
pub mod Event

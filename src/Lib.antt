-- ===== src/Lib.antt =====
-- A model of liblinuxpp, a C++ library of wrappers around Linux system calls, and what holds of
-- it.
--
-- The parts, and the files that model them:
-- - Ioloop: the event loop linuxpp::ioloop (include/liblinuxpp/ioloop.hpp, src/ioloop.cpp). Its
--   data members are the records of Ioloop/State (timeouts, periodic timeouts, handlers) and
--   Ioloop/Loop (the whole object). Ioloop/Timeouts has add_timeout, insert_timeout,
--   remove_timeout and the second half of process_timeouts; Ioloop/Periodic the same for periodic
--   timeouts; Ioloop/Handlers has add_handler, remove_handler and the pruning of start;
--   Ioloop/Loop has add_callback, stop and the four process_ functions; Ioloop/Start has the
--   constructor, the dispatch of events and start. Ioloop/Threads has the same object shared by
--   threads: add_callback and stop in any number of them, process_callbacks, process_stop and
--   start in one, as steps that each make one access of what is shared. Ioloop/Registry has the
--   handlers together with the epoll object and its kernel: the operations of Ioloop/Handlers with
--   the calls of Epoll that they make. Ioloop/Entries has what the two kinds of timeouts share.
-- - Message: make_iovec, fill_iovec and accumulate (include/liblinuxpp/iovec.hpp) and the three
--   kinds of length prefixed messages (include/liblinuxpp/length_prefixed_message.hpp).
-- - Datagram: recv, recv_part and send of linuxpp::net::tcp_datagram_socket
--   (include/liblinuxpp/net/tcp_datagram_socket.hpp, src/net/tcp_datagram_socket.cpp), over
--   linuxpp::net::recv (src/net/recv.cpp). It sends what Message lays out.
-- - Epoll: linuxpp::epoll (include/liblinuxpp/epoll.hpp, src/epoll.cpp), over a kernel that is a
--   record of the three epoll calls. Epoll/Interest has the interest list that an object stands
--   for, and what is taken for granted of the kernel (IsKernel).
-- - Calls: the system calls of sockets, files and timers, and what a function does that makes them
--   (it appends to a log of calls, and returns or throws).
-- - Net: the sockets. Net/Address has make_sockaddr and parse_sockaddr (src/net/sockaddr.cpp);
--   Net/Wrappers the functions of linuxpp::net (socket, listen, accept, bind, connect, send, recv,
--   the options, in the files of src/net of those names); Net/Sockets tcp_socket and udp_socket
--   (src/net/tcp_socket.cpp, src/net/udp_socket.cpp); Net/Datagram the constructors of
--   tcp_datagram_socket and what it passes on to its tcp_socket. Net/Closeless, Net/Construct and
--   Net/Counts are about the constructors and the counts of bytes.
-- - Descriptor: int_descriptor and unique_fd (include/liblinuxpp/int_descriptor.hpp,
--   include/liblinuxpp/unique_fd.hpp), which popen uses for its pid and its streams.
-- - Syscall: syscall_return (include/liblinuxpp/syscall_return.hpp), and how src/pipe.cpp and
--   src/epoll.cpp build one.
-- - Subprocess: the status of a child (include/liblinuxpp/subprocess/status.hpp,
--   src/subprocess/status.cpp) and popen's wait, poll, signal and destructor
--   (src/subprocess/popen.cpp, src/subprocess/wait.cpp). Subprocess/Streams has the descriptors of
--   the standard streams, what clone_handler does with them in the child and handle_parent_stream
--   in the parent, and Subprocess/Streams/Handler the whole of clone_handler; the kernel's table
--   of descriptors is a record of operations, Kernel, with the laws of close and dup2 as IsKernel.
--   Subprocess/Argv has the arguments of a program (src/subprocess/argv.cpp), Subprocess/Clone the
--   constructor of popen with clone, seen from the parent: Subprocess/Clone/Children is about the
--   child that it starts, Subprocess/Clone/Ends about the descriptors of the streams.
--   Subprocess/Clone/Threads has the threads that call clone at the same time, by their accesses
--   of clone_mutex, the shared signal_mutex and the stack (Subprocess/Stack:
--   src/subprocess/stack.cpp) on which the children run; Subprocess/Clone/Exclusion is about
--   these.
-- - Files: open, read, write, fcntl, pipe and eventfd (src/open.cpp, src/pipe.cpp, src/eventfd.cpp
--   and the headers of those names), and Timer: monotonic_timerfd (src/monotonic_timerfd.cpp), by
--   the system calls that they make, as in Net; Files/Objects has the templates of pipe that read
--   and write an object; Timer/Oneshot is about the times that arm a timer.
-- - Signals: signal_mutex (src/signal_mutex.cpp), over a pthread_sigmask that is a parameter;
--   Signals/Guards has nested scopes that hold one.
-- - Prelude: lists, sorting, bytes and integers that the parts share. Examples: concrete runs.
--
-- How code becomes a definition. A function that changes an object takes the object and returns
-- it; an exception is a value of an Error type, with the state that the object is left in where it
-- matters. What the kernel, the clock and the user's callbacks do is an argument: an errno value
-- or a count for a system call, a number of nanoseconds for a time point, and for callbacks a
-- script, which says by the invocation and the state of the loop what operations of the loop the
-- callback calls: a round is run with callbacks that add and remove timeouts and handlers
-- meanwhile. Behaviour that C++ leaves undefined is a flag (dangling, undefined; start goes no
-- further once a pointer has dangled) or a missing value.
--
-- Bounds and fuel. std::size_t is modulo 2 ^ 64, the length of a message modulo 2 ^ 16, the sum of
-- accumulate modulo 2 ^ 32, a timeout's id modulo 2 ^ 64; time points, descriptors and counters
-- are not bounded. The loop of process_timeouts runs for as many steps as the vector has entries:
-- while it runs no entry is inserted or erased, and each step advances the iterator. start is
-- given the answers of the kernel for the rounds that are looked at, as a list of any length. The
-- receiver of a message is given the list of how many bytes have arrived at each of its calls.
--
-- What is taken for granted: an access of keep_running_, which is a volatile sig_atomic_t, is
-- indivisible; callbacks do not throw (they catch what the operations that they call throw) and do
-- not call start, stop_eventfd_ has been written when process_stop reads it, setting and reading
-- the timers succeeds, std::lower_bound on a sorted vector finds the first entry that is not
-- earlier, std::sort keeps the order of entries with one due time, ndgpp::bool_sentry resets its
-- flag to false at the end of its block, and ndgpp::network_byte_order puts the high byte first (a
-- hypothesis of the theorems on frames).
--
-- What is not modelled: the templates of include/liblinuxpp/pipe.hpp that read and write an
-- object, for the types with which they do not compile, the bytes that src/net moves but for the
-- messages of tcp_datagram_socket, and the closing of a descriptor that has a handler, but for
-- what epoll_ctl then answers in Ioloop/Handlers.
pub mod Prelude
pub mod Ioloop
pub mod Message
pub mod Datagram
pub mod Descriptor
pub mod Syscall
pub mod Subprocess
pub mod Calls
pub mod Files
pub mod Timer
pub mod Signals
pub mod Net
pub mod Epoll
pub mod Examples

-- ===== src/Examples.antt =====
-- Runs of the models on concrete inputs: the properties of the library, applied to a message of two
-- buffers, a loop with timeouts and handlers, a scope with descriptors, a child process and its streams,
-- sockets, an epoll object, signal masks and a timer.
mod Net
mod Loop
mod Process
mod Streams
mod Sockets
mod Watch
mod Clone
mod Threads
mod Registry
mod Launch

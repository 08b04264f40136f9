-- ===== src/Ioloop.antt =====
-- linuxpp::ioloop (include/liblinuxpp/ioloop.hpp, src/ioloop.cpp): the parts of the event loop.
pub mod State
pub mod Entries
pub mod Timeouts
pub mod Periodic
pub mod Handlers
pub mod Loop
pub mod Start
pub mod Threads
pub mod Registry

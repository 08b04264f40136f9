-- ===== src/Ioloop/Threads.antt =====
-- ioloop shared by threads (src/ioloop.cpp, include/liblinuxpp/ioloop.hpp): one thread runs start, and
-- any number of others call add_callback and stop. What is shared is mutex_, new_callbacks_, the two
-- event counters and keep_running_; each access of one of them is a step, and the threads' steps
-- interleave in any order. A callback that itself calls add_callback or stop is one of the others: the
-- mutex is not held while it runs. An event counter is the kernel's and a parameter. A wait that fails
-- is no step here, since Ioloop/Start has it; nor is a read of a counter that throws.
mod Defs
mod Inv
mod Moves
mod LoopMoves
mod Invariant
pub mod Safety
pub mod Delivery
pub mod Progress
pub use Defs.*
pub use Inv.*
pub use Invariant.*

-- ===== src/Net.antt =====
-- linuxpp::net (include/liblinuxpp/net/, src/net/): addresses, the wrappers of the socket system calls,
-- and the classes tcp_socket and udp_socket with the operations of tcp_datagram_socket that pass on to
-- tcp_socket.
pub mod Address
pub mod Wrappers
pub mod Sockets
pub mod Datagram
pub mod Closeless
pub mod Construct
pub mod Counts

-- ===== src/Net/Datagram.antt =====
-- The constructors of linuxpp::net::tcp_datagram_socket and the operations that it passes on to its
-- tcp_socket (src/net/tcp_datagram_socket.cpp).
use liblinuxpp.Prelude.{ℕ, false}
use liblinuxpp.Prelude.Int.{ℤ, pos}
use liblinuxpp.Calls.{int_value, Kernel, Action, pure, ◌>>=◌}
use liblinuxpp.Net.Address.{ByteOrder, af_inet}
use liblinuxpp.Net.Wrappers.{so_tcp_nodelay, set_option}
use liblinuxpp.Net.Sockets
use liblinuxpp.Net.Sockets.{Socket, unwinding, descriptor, destroy, tcp_domain}
use liblinuxpp.Descriptor.{unique_move_assign}

module _ (kernel : Kernel) where
  unfoldable pub set_nodelay : Socket → Action (Unit {0})
  unfolding descriptor set_option
  set_nodelay s = do
    _ ← set_option kernel so_tcp_nodelay (descriptor s) (int_value (pos 1))
    pure tt

  -- The constructor from a tcp_socket that it takes over, and the one from a domain.
  unfoldable pub of_socket : Socket → Action Socket
  unfolding set_nodelay destroy
  of_socket sock = unwinding (set_nodelay sock) sock

  unfoldable pub datagram_domain : ℕ → Action Socket
  unfolding set_nodelay tcp_domain destroy
  datagram_domain domain = do s ← tcp_domain kernel domain; unwinding (set_nodelay s) s

  -- operator= from a tcp_socket: the object and what is left of the other, also where it throws.
  unfoldable pub assign_socket : Socket → Socket → Action (Unit {0}) × (Socket × Socket)
  unfolding set_nodelay unique_move_assign
  assign_socket this rhs =
      let (a, b) = unique_move_assign this.sock_descriptor rhs.sock_descriptor in
      let moved : Socket = record { sock_descriptor = a } in
      (set_nodelay moved, (moved, record { sock_descriptor = b }))

  -- What is passed on to the tcp_socket.
  unfoldable pub shutdown : Socket → ℤ → Action (Unit {0})
  unfolding Sockets.shutdown
  shutdown s how = Sockets.shutdown kernel s how

  unfoldable pub listen : Socket → ℤ → Action (Unit {0})
  unfolding Sockets.listen
  listen s backlog = Sockets.listen kernel s backlog

  unfoldable pub accept : Socket → ℕ → Action ℤ
  unfolding Sockets.accept
  accept s flags = Sockets.accept kernel s flags

  module _ (o : ByteOrder) where
    unfoldable pub bind : Socket → ℕ → ℕ → Action (Unit {0})
    unfolding Sockets.bind
    bind s address port = Sockets.bind kernel o s address port false false

    unfoldable pub bind_any_port : Socket → ℕ → Action (Unit {0})
    unfolding Sockets.bind_any_port
    bind_any_port s address = Sockets.bind_any_port kernel o s address false

    unfoldable pub connect : Socket → ℕ → ℕ → Action (Unit {0})
    unfolding Sockets.connect
    connect s address port = Sockets.connect kernel o s address port

    unfoldable pub accept_address : Socket → ℕ → Action (ℤ × (ℕ × ℕ))
    unfolding Sockets.accept_address
    accept_address s flags = Sockets.accept_address kernel o s flags

    -- The constructors that delegate to the one with a domain and then bind or connect.
    unfoldable pub datagram_bind : ℕ → ℕ → Action Socket
    unfolding datagram_domain Sockets.bind destroy
    datagram_bind address port = do
      s ← datagram_domain af_inet
      unwinding (Sockets.bind kernel o s address port false false) s

    unfoldable pub datagram_bind_any_port : ℕ → Action Socket
    unfolding datagram_domain Sockets.bind_any_port destroy
    datagram_bind_any_port address = do
      s ← datagram_domain af_inet
      unwinding (Sockets.bind_any_port kernel o s address false) s

    unfoldable pub datagram_connect : ℕ → ℕ → Action Socket
    unfolding datagram_domain Sockets.connect destroy
    datagram_connect address port = do
      s ← datagram_domain af_inet
      unwinding (Sockets.connect kernel o s address port) s

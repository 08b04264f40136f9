-- ===== src/Net/Sockets.antt =====
-- linuxpp::net::tcp_socket and udp_socket (src/net/tcp_socket.cpp, src/net/udp_socket.cpp). Both own one
-- descriptor by a unique_fd; its closer makes the call close.
use liblinuxpp.Prelude.{ℕ, Bool, false, List, [], ◌∷◌, none}
use liblinuxpp.Prelude.Int.{ℤ}
use liblinuxpp.Calls
use liblinuxpp.Calls.{
  Sockaddr, Value, ip_mreqn, Call, Kernel, Result, ok, err, Action, pure, ◌>>=◌, ◌>>◌, checked,
}
use liblinuxpp.Net.Address.{ByteOrder, af_inet}
use liblinuxpp.Net.Wrappers
use liblinuxpp.Net.Wrappers.{so_add_membership, set_option}
use liblinuxpp.Descriptor.{
  UniqueFd, is_set, invalid_value, manage, unique_reset, unique_destroy, unique_swap,
}

pub record Socket : Type 0 where
  pub sock_descriptor : UniqueFd

abbrev pub of_fd : ℤ → Socket
of_fd fd = record { sock_descriptor = manage fd }

-- The socket that manages nothing: the default constructors.
abbrev pub no_socket : Socket
no_socket = of_fd invalid_value

abbrev pub sock_stream : ℕ
sock_stream = 1

abbrev pub sock_dgram : ℕ
sock_dgram = 2

-- default_close on the descriptors that a unique_fd gives up.
abbrev pub default_close : List ℤ → List Call → List Call
default_close [] log = log
default_close (fd ∷ fds) log = Calls.close fd ∷ default_close fds log

unfoldable pub descriptor : Socket → ℤ
descriptor s = s.sock_descriptor.fd_member.descriptor

-- operator bool and close of both classes.
unfoldable pub is_managed : Socket → Bool
unfolding is_set
is_managed s = is_set s.sock_descriptor.fd_member

unfoldable pub close : Socket → Action Socket
unfolding unique_reset
close s log =
    let (u, closed) = unique_reset s.sock_descriptor invalid_value [] in
    (ok (record { sock_descriptor = u }), default_close closed log)

unfoldable pub destroy : Socket → List Call → List Call
unfolding unique_destroy
destroy s log = default_close (unique_destroy s.sock_descriptor []) log

unfoldable pub swap : Socket → Socket → Socket × Socket
unfolding unique_swap
swap this other =
    let (a, b) = unique_swap this.sock_descriptor other.sock_descriptor in
    (record { sock_descriptor = a }, record { sock_descriptor = b })

-- The rest of a constructor on an object whose members exist: if it throws, they are destroyed.
abbrev pub unwinding : Action (Unit {0}) → Socket → Action Socket
unwinding body s log =
    let (r, after) = body log in elim r [ ok _ ↦ (ok s, after) | err e ↦ (err e, destroy s after) ]

module _ (kernel : Kernel) where
  -- The constructors that are given a domain.
  unfoldable pub tcp_domain : ℕ → Action Socket
  unfolding Wrappers.socket
  tcp_domain domain = do
    fd ← Wrappers.socket kernel domain sock_stream 0
    pure (record { sock_descriptor = fd })

  unfoldable pub udp_domain : ℕ → Action Socket
  unfolding Wrappers.socket
  udp_domain domain = do
    fd ← Wrappers.socket kernel domain sock_dgram 0
    pure (record { sock_descriptor = fd })

  unfoldable pub shutdown : Socket → ℤ → Action (Unit {0})
  unfolding descriptor
  shutdown s how = do _ ← checked kernel (Calls.shutdown (descriptor s) how); pure tt

  unfoldable pub listen : Socket → ℤ → Action (Unit {0})
  unfolding descriptor Wrappers.listen
  listen s backlog = Wrappers.listen kernel (descriptor s) backlog

  unfoldable pub accept : Socket → ℕ → Action ℤ
  unfolding descriptor Wrappers.accept
  accept s flags = Wrappers.accept kernel (descriptor s) flags

  unfoldable pub recv : Socket → ℕ → ℕ → Action ℕ
  unfolding descriptor Wrappers.recv
  recv s buflen flags = Wrappers.recv kernel (descriptor s) buflen flags

  unfoldable pub recv_buffers : Socket → ℕ → ℕ → Action ℕ
  unfolding descriptor Wrappers.recv_buffers
  recv_buffers s size_buffs flags = Wrappers.recv_buffers kernel (descriptor s) size_buffs flags

  unfoldable pub send : Socket → ℕ → ℕ → ℕ → Action ℕ
  unfolding descriptor Wrappers.send
  send s buf length flags = Wrappers.send kernel (descriptor s) buf length flags

  unfoldable pub send_buffers : Socket → ℕ → ℕ → ℕ → Action ℕ
  unfolding descriptor Wrappers.send_msg
  send_buffers s buffers size_buffers flags =
      Wrappers.send_msg kernel (descriptor s) none buffers size_buffers flags

  -- udp_socket: receiving with the sender's sockaddr, and sending to one.
  unfoldable pub recv_from : Socket → ℕ → ℕ → Action (ℕ × Sockaddr)
  unfolding descriptor Wrappers.recv_from
  recv_from s buflen flags = Wrappers.recv_from kernel (descriptor s) buflen flags

  unfoldable pub recv_buffers_from : Socket → ℕ → ℕ → Action (ℕ × Sockaddr)
  unfolding descriptor Wrappers.recv_msg
  recv_buffers_from s size_buffs flags =
      Wrappers.recv_msg kernel (descriptor s) size_buffs Wrappers.sockaddr_size flags

  unfoldable pub send_to : Socket → ℕ → ℕ → Sockaddr → ℕ → Action ℕ
  unfolding descriptor Wrappers.send_to
  send_to s buf length sockaddr flags =
      Wrappers.send_to kernel (descriptor s) buf length sockaddr flags

  -- send of buffers to a sockaddr: of the overloads of linuxpp::net::send the call selects the one of
  -- a single buffer, which takes the array of buffers for the data and their number for its length.
  unfoldable pub send_buffers_to : Socket → ℕ → ℕ → Sockaddr → ℕ → Action ℕ
  unfolding descriptor Wrappers.send_to
  send_buffers_to s buffers size_buffers sockaddr flags =
      Wrappers.send_to kernel (descriptor s) buffers size_buffers sockaddr flags

  module _ (o : ByteOrder) where
    unfoldable pub bind : Socket → ℕ → ℕ → Bool → Bool → Action (Unit {0})
    unfolding descriptor Wrappers.bind
    bind s addr port reuse_addr reuse_port =
        Wrappers.bind kernel o (descriptor s) addr port reuse_addr reuse_port

    unfoldable pub bind_any_port : Socket → ℕ → Bool → Action (Unit {0})
    unfolding descriptor Wrappers.bind_any_port
    bind_any_port s addr reuse_addr = Wrappers.bind_any_port kernel o (descriptor s) addr reuse_addr

    unfoldable pub connect : Socket → ℕ → ℕ → Action (Unit {0})
    unfolding descriptor Wrappers.connect
    connect s addr port = Wrappers.connect kernel o (descriptor s) addr port

    unfoldable pub accept_address : Socket → ℕ → Action (ℤ × (ℕ × ℕ))
    unfolding descriptor Wrappers.accept_address
    accept_address s flags = Wrappers.accept_address kernel o (descriptor s) flags

    -- The constructors that delegate to the one with a domain and then bind or connect.
    unfoldable pub tcp_bind : ℕ → ℕ → Action Socket
    unfolding tcp_domain bind
    tcp_bind address port = do s ← tcp_domain af_inet; unwinding (bind s address port false false) s

    unfoldable pub tcp_bind_any_port : ℕ → Action Socket
    unfolding tcp_domain bind_any_port
    tcp_bind_any_port address = do
      s ← tcp_domain af_inet
      unwinding (bind_any_port s address false) s

    unfoldable pub tcp_connect : ℕ → ℕ → Action Socket
    unfolding tcp_domain connect
    tcp_connect address port = do s ← tcp_domain af_inet; unwinding (connect s address port) s

    unfoldable pub udp_bind : ℕ → ℕ → Action Socket
    unfolding udp_domain bind
    udp_bind addr port = do s ← udp_domain af_inet; unwinding (bind s addr port false false) s

    -- udp_socket::join_group on an interface, by its name, and by its address.
    unfoldable pub join_group : Socket → ℕ → ℕ → Action (Unit {0})
    unfolding descriptor Wrappers.if_nametoindex set_option
    join_group s maddr interface = do
      index ← Wrappers.if_nametoindex kernel interface
      _ ← set_option kernel so_add_membership (descriptor s) (ip_mreqn (o.htonl maddr) 0 index)
      pure tt

    unfoldable pub join_group_address : Socket → ℕ → ℕ → Action (Unit {0})
    unfolding descriptor set_option
    join_group_address s maddr addr = do
      _ ←
          set_option kernel so_add_membership (descriptor s)
            (ip_mreqn (o.htonl maddr) (o.htonl addr) 0)
      pure tt

    -- udp_socket: receiving with the sender's address, and sending to one.
    unfoldable pub recv_address : Socket → ℕ → ℕ → Action (ℕ × (ℕ × ℕ))
    unfolding descriptor Wrappers.recv_address
    recv_address s buflen flags = Wrappers.recv_address kernel o (descriptor s) buflen flags

    unfoldable pub recv_buffers_address : Socket → ℕ → ℕ → Action (ℕ × (ℕ × ℕ))
    unfolding descriptor Wrappers.recv_buffers_address
    recv_buffers_address s size_buffs flags =
        Wrappers.recv_buffers_address kernel o (descriptor s) size_buffs flags

    unfoldable pub send_address : Socket → ℕ → ℕ → ℕ → ℕ → ℕ → Action ℕ
    unfolding descriptor Wrappers.send_address
    send_address s buf length addr port flags =
        Wrappers.send_address kernel o (descriptor s) buf length addr port flags

    unfoldable pub send_buffers_address : Socket → ℕ → ℕ → ℕ → ℕ → ℕ → Action ℕ
    unfolding descriptor Wrappers.send_buffers_address
    send_buffers_address s buffers size_buffers addr port flags =
        Wrappers.send_buffers_address kernel o (descriptor s) buffers size_buffers addr port flags

-- ===== src/Net/Wrappers.antt =====
-- The functions of linuxpp::net that wrap one system call or a few (src/net/socket.cpp, sockopt.cpp,
-- bind.cpp, connect.cpp, accept.cpp, interface.cpp, send.cpp and recv.cpp of the same folder).
use Prim.Native.Nat.{bit_or}
use liblinuxpp.Prelude.{ℕ, Bool, true, false, Option, some, ◌==◌, if◌then◌else◌}
use liblinuxpp.Prelude.Int.{to_int, ℤ, pos, eqb_ℤ}
use liblinuxpp.Calls
use liblinuxpp.Calls.{
  Sockaddr, Value, int_value, ip_mreqn, Call, Answer, Kernel, Error, system_error, invalid_argument,
  runtime_error, Result, ok, err, Action, pure, throw, ◌>>=◌, ◌>>◌, minus_one, call, checked,
  to_size,
}
use liblinuxpp.Net.Address.{ByteOrder, make_sockaddr, make_sockaddr_any_port, parse_sockaddr}
use liblinuxpp.Descriptor.{UniqueFd, manage}

abbrev pub sock_cloexec : ℕ
sock_cloexec = 524288

-- The options, by their level and name: SOL_SOCKET is 1, IPPROTO_TCP 6 and IPPROTO_IP 0.
pub record SocketOption : Type 0 where
  pub level : ℕ
  pub name : ℕ
  pub size : ℕ

abbrev pub so_domain : SocketOption
so_domain = record { level = 1; name = 39; size = 4 }

abbrev pub so_reuse_addr : SocketOption
so_reuse_addr = record { level = 1; name = 2; size = 4 }

abbrev pub so_reuse_port : SocketOption
so_reuse_port = record { level = 1; name = 15; size = 4 }

abbrev pub so_accept_conn : SocketOption
so_accept_conn = record { level = 1; name = 30; size = 4 }

abbrev pub so_tcp_nodelay : SocketOption
so_tcp_nodelay = record { level = 6; name = 1; size = 4 }

abbrev pub so_add_membership : SocketOption
so_add_membership = record { level = 0; name = 35; size = 12 }

-- sizeof(struct ::sockaddr_in).
abbrev pub sockaddr_size : ℕ
sockaddr_size = 16

module _ (kernel : Kernel) where
  -- linuxpp::net::socket.
  unfoldable pub socket : ℕ → ℕ → ℕ → Action UniqueFd
  socket domain type protocol = do
    a ← call kernel (Calls.socket domain (bit_or type sock_cloexec) protocol)
    if eqb_ℤ a.ret minus_one then throw (system_error a.errno) else pure (manage a.ret)

  unfoldable pub listen : ℤ → ℤ → Action (Unit {0})
  listen sd backlog = do _ ← checked kernel (Calls.listen sd backlog); pure tt

  unfoldable pub getsockname : ℤ → Action Sockaddr
  getsockname sd = do a ← checked kernel (Calls.getsockname sd); pure a.name

  -- The functions getsockopt and setsockopt, and their templates over an option.
  unfoldable pub getsockopt : ℤ → ℕ → ℕ → Action Answer
  getsockopt sd level optname = checked kernel (Calls.getsockopt sd level optname)

  unfoldable pub setsockopt : ℤ → ℕ → ℕ → Value → Action ℤ
  setsockopt sd level optname optval = do
    a ← checked kernel (Calls.setsockopt sd level optname optval)
    pure a.ret

  unfoldable pub get_option : SocketOption → ℤ → Action (Value × ℤ)
  unfolding getsockopt
  get_option option sd = do
    a ← getsockopt sd option.level option.name
    if a.length == option.size then pure (a.value, a.ret) else throw invalid_argument

  unfoldable pub set_option : SocketOption → ℤ → Value → Action ℤ
  unfolding setsockopt
  set_option option sd value = setsockopt sd option.level option.name value

  -- One of the two options of bind: set to 1 if it is asked for.
  unfoldable pub set_if : Bool → SocketOption → ℤ → Action (Unit {0})
  unfolding set_option
  set_if wanted option sd log =
      if wanted then (do _ ← set_option option sd (int_value (pos 1)); pure tt) log else pure tt log

  -- linuxpp::net::bind with a sockaddr.
  unfoldable pub bind_sockaddr : ℤ → Sockaddr → Bool → Bool → Action (Unit {0})
  unfolding set_if
  bind_sockaddr sd addr reuse_addr reuse_port = do
    set_if reuse_addr so_reuse_addr sd
    set_if reuse_port so_reuse_port sd
    _ ← checked kernel (Calls.bind sd addr)
    pure tt

  unfoldable pub connect_sockaddr : ℤ → Sockaddr → Action (Unit {0})
  connect_sockaddr sd sockaddr = do _ ← checked kernel (Calls.connect sd sockaddr); pure tt

  -- detail::accept and the overloads of linuxpp::net::accept: without an address, and with a
  -- sockaddr.
  unfoldable pub accept : ℤ → ℕ → Action ℤ
  accept sd flags = do
    a ← checked kernel (Calls.accept4 sd false (bit_or flags sock_cloexec))
    pure a.ret

  unfoldable pub accept_sockaddr : ℤ → ℕ → Action (ℤ × Sockaddr)
  accept_sockaddr sd flags = do
    a ← checked kernel (Calls.accept4 sd true (bit_or flags sock_cloexec))
    if a.length == sockaddr_size then pure (a.ret, a.name) else throw runtime_error

  unfoldable pub if_nametoindex : ℕ → Action ℕ
  if_nametoindex name = do
    a ← call kernel (Calls.if_nametoindex name)
    if to_size a.ret == 0 then throw (system_error a.errno) else pure (to_size a.ret)

  -- The overloads of linuxpp::net::send: a msghdr, of which the destination and the buffers differ;
  -- a buffer to an address; and a buffer. The last two keep what the call returns in an int.
  unfoldable pub send_msg : ℤ → Option Sockaddr → ℕ → ℕ → ℕ → Action ℕ
  send_msg sd name buffers size_buffers flags = do
    a ← checked kernel (Calls.sendmsg sd name buffers size_buffers flags)
    pure (to_size a.ret)

  -- What is done with a returned value that is kept in an int.
  abbrev pub count_of : Answer → Action ℕ
  count_of a =
      if eqb_ℤ (to_int a.ret) minus_one
      then throw (system_error a.errno)
      else pure (to_size (to_int a.ret))

  unfoldable pub send_to : ℤ → ℕ → ℕ → Sockaddr → ℕ → Action ℕ
  send_to sd msg length sockaddr flags = do
    a ← call kernel (Calls.sendto sd msg length sockaddr flags)
    count_of a

  unfoldable pub send : ℤ → ℕ → ℕ → ℕ → Action ℕ
  send sd msg length flags = do a ← call kernel (Calls.send sd msg length flags); count_of a

  -- The overloads of linuxpp::net::recv: a buffer; a buffer, with the sender's address; and buffers,
  -- with or without the address. All keep what the call returns in an int.
  unfoldable pub recv : ℤ → ℕ → ℕ → Action ℕ
  recv sd len flags = do a ← call kernel (Calls.recv sd len flags); count_of a

  unfoldable pub recv_from : ℤ → ℕ → ℕ → Action (ℕ × Sockaddr)
  recv_from sd len flags = do
    a ← call kernel (Calls.recvfrom sd len flags)
    ret ← count_of a
    if a.length == sockaddr_size then pure (ret, a.name) else throw invalid_argument

  -- detail::recv with the length of msg_name that is given, 0 for none.
  unfoldable pub recv_msg : ℤ → ℕ → ℕ → ℕ → Action (ℕ × Sockaddr)
  recv_msg sd size_buffs size_msg_name flags = do
    a ← call kernel (Calls.recvmsg sd size_buffs size_msg_name flags)
    ret ← count_of a
    if a.length == size_msg_name then pure (ret, a.name) else throw invalid_argument

  unfoldable pub recv_buffers : ℤ → ℕ → ℕ → Action ℕ
  unfolding recv_msg
  recv_buffers sd size_buffs flags = do r ← recv_msg sd size_buffs 0 flags; pure r.0

  module _ (o : ByteOrder) where
    unfoldable pub getsockname_ipv4 : ℤ → Action (ℕ × ℕ)
    unfolding getsockname
    getsockname_ipv4 sd = do
      sockaddr ← getsockname sd
      pure (o.ntohl sockaddr.sin_addr, o.ntohs sockaddr.sin_port)

    -- bind with an address and a port, and with an address.
    unfoldable pub bind : ℤ → ℕ → ℕ → Bool → Bool → Action (Unit {0})
    unfolding bind_sockaddr make_sockaddr
    bind sd addr port reuse_addr reuse_port =
        bind_sockaddr sd (make_sockaddr o addr port) reuse_addr reuse_port

    unfoldable pub bind_any_port : ℤ → ℕ → Bool → Action (Unit {0})
    unfolding bind_sockaddr make_sockaddr_any_port
    bind_any_port sd addr reuse_addr =
        bind_sockaddr sd (make_sockaddr_any_port o addr) reuse_addr false

    unfoldable pub connect : ℤ → ℕ → ℕ → Action (Unit {0})
    unfolding connect_sockaddr make_sockaddr
    connect sd addr port = connect_sockaddr sd (make_sockaddr o addr port)

    -- accept with an address: the flags are not passed on, so the default 0 takes their place.
    unfoldable pub accept_address : ℤ → ℕ → Action (ℤ × (ℕ × ℕ))
    unfolding accept_sockaddr parse_sockaddr
    accept_address sd flags = do r ← accept_sockaddr sd 0; pure (r.0, parse_sockaddr o r.1)

    -- send and recv with an address.
    unfoldable pub send_buffers_address : ℤ → ℕ → ℕ → ℕ → ℕ → ℕ → Action ℕ
    unfolding send_msg make_sockaddr
    send_buffers_address sd buffers size_buffers address port flags =
        send_msg sd (some (make_sockaddr o address port)) buffers size_buffers flags

    unfoldable pub send_address : ℤ → ℕ → ℕ → ℕ → ℕ → ℕ → Action ℕ
    unfolding send_to make_sockaddr
    send_address sd msg length address port flags =
        send_to sd msg length (make_sockaddr o address port) flags

    unfoldable pub recv_address : ℤ → ℕ → ℕ → Action (ℕ × (ℕ × ℕ))
    unfolding recv_from parse_sockaddr
    recv_address sd len flags = do r ← recv_from sd len flags; pure (r.0, parse_sockaddr o r.1)

    unfoldable pub recv_buffers_address : ℤ → ℕ → ℕ → Action (ℕ × (ℕ × ℕ))
    unfolding recv_msg parse_sockaddr
    recv_buffers_address sd size_buffs flags = do
      r ← recv_msg sd size_buffs sockaddr_size flags
      pure (r.0, parse_sockaddr o r.1)

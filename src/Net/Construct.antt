-- ===== src/Net/Construct.antt =====
-- What becomes of the descriptor that a constructor of a socket class opens
-- (src/net/tcp_socket.cpp, src/net/udp_socket.cpp, src/net/tcp_datagram_socket.cpp).
use Prim.Native.Nat.{bit_or}
use liblinuxpp.Prelude.{
  ℕ, ◌+◌, ◌≡◌, refl, sym, ap, ◌∙◌, Bool, true, false, List, ◌∷◌, arith, if◌then◌else◌,
}
use liblinuxpp.Prelude.Int.{ℤ, eqb_ℤ, eqb_ℤ_iff}
use liblinuxpp.Calls
use liblinuxpp.Calls.{
  Sockaddr, Call, Answer, Kernel, Result, ok, err, Action, ◌>>=◌, minus_one, system_error, checked,
}
use liblinuxpp.Net.Address.{ByteOrder, af_inet}
use liblinuxpp.Net.Wrappers
use liblinuxpp.Net.Wrappers.{sock_cloexec, set_if, bind_sockaddr, connect_sockaddr, set_option}
use liblinuxpp.Net.Sockets
use liblinuxpp.Net.Sockets.{
  Socket, sock_stream, sock_dgram, unwinding, descriptor, destroy, tcp_domain, udp_domain, tcp_bind,
  tcp_bind_any_port, tcp_connect, udp_bind,
}
use liblinuxpp.Net.Datagram.{
  set_nodelay, datagram_domain, datagram_bind, datagram_bind_any_port, datagram_connect,
}
use liblinuxpp.Descriptor.{manage, unique_destroy}
use liblinuxpp.Net.Closeless.{
  closes, Closeless, set_nodelay-Closeless, bind-Closeless, bind_any_port-Closeless,
  connect-Closeless,
}

-- The constructors that open a socket.
pub data Constructor : Type 0 where
  tcp_of_domain : ℕ → Constructor
  tcp_bound : ℕ → ℕ → Constructor
  tcp_bound_any_port : ℕ → Constructor
  tcp_connected : ℕ → ℕ → Constructor
  udp_of_domain : ℕ → Constructor
  udp_bound : ℕ → ℕ → Constructor
  datagram_of_domain : ℕ → Constructor
  datagram_bound : ℕ → ℕ → Constructor
  datagram_bound_any_port : ℕ → Constructor
  datagram_connected : ℕ → ℕ → Constructor

abbrev pub is_open : ℤ → Bool
is_open fd = if eqb_ℤ fd minus_one then false else true

-- A constructor that returns owns the open descriptor `fd`, which has not been closed; one that throws
-- has closed it once, if it was opened.
abbrev pub Owns : ℤ → List Call → Result Socket × List Call → Type 0
Owns fd log (ok s, after) =
    (descriptor s ≡ fd) × (is_open fd ≡ true) × (closes fd after ≡ closes fd log)
Owns fd log (err e, after) = closes fd after ≡ closes fd log + (if is_open fd then 1 else 0)

closes-destroy :
    (s : Socket) (log : List Call)
    → closes (descriptor s) (destroy s log)
      ≡ closes (descriptor s) log + (if is_open (descriptor s) then 1 else 0)
unfolding destroy descriptor unique_destroy
closes-destroy s log =
    ground (
      arith,
      eqb_ℤ_iff s.sock_descriptor.fd_member.descriptor s.sock_descriptor.fd_member.descriptor,
    )

unwinding-Owns :
    (body : Action (Unit {0})) (s : Socket) (fd : ℤ) (log before : List Call)
    → Closeless body
    → Owns fd before (ok s, log)
    → Owns fd before (unwinding body s log)
unwinding-Owns body s fd log before quiet owns = by_result (body log) refl
  where
    by_result :
        (r : Result (Unit {0}) × List Call)
        → body log ≡ r
        → Owns fd before (elim r.0 [ ok _ ↦ (ok s, r.1) | err e ↦ (err e, destroy s r.1) ])
    by_result (ok _, after) e =
        (owns.0, owns.1, sym (ap (λ r. closes fd r.1) e) ∙ quiet fd log ∙ owns.2)
    by_result (err x, after) e = ground (
      arith,
      closes-destroy s after,
      quiet fd log,
      owns.0,
      owns.1,
      owns.2,
      ap (λ r. closes fd r.1) e,
    )

then-Owns :
    (m : Action Socket) (body : Socket → Action (Unit {0})) (fd : ℤ) (log : List Call)
    → ((s : Socket) → Closeless (body s))
    → Owns fd log (m log)
    → Owns fd log ((m >>= λ s. unwinding (body s) s) log)
then-Owns m body fd log quiet owns = by_result (m log) owns
  where
    by_result :
        (r : Result Socket × List Call)
        → Owns fd log r
        → Owns fd log (elim r.0 [ ok s ↦ unwinding (body s) s r.1 | err e ↦ (err e, r.1) ])
    by_result (ok s, after) o = unwinding-Owns (body s) s fd after log (quiet s) o
    by_result (err x, after) o = o

module _ (kernel : Kernel) where
  unfoldable pub socket_fd : ℕ → ℕ → List Call → ℤ
  socket_fd domain type log = (kernel log (Calls.socket domain (bit_or type sock_cloexec) 0)).ret

  -- A constructor that is given a domain, by the type of socket that it opens.
  opened-Owns :
      (domain type : ℕ) (log : List Call)
      → Owns (socket_fd domain type log) log (
          (Wrappers.socket kernel domain type 0 >>= λ fd.
          Calls.pure (record { sock_descriptor = fd }))
            log)
  unfolding socket_fd descriptor Wrappers.socket
  opened-Owns domain type log = by_test (kernel log c) (eqb_ℤ (kernel log c).ret minus_one) refl
    where
      c : Call
      c = Calls.socket domain (bit_or type sock_cloexec) 0

      by_test :
          (a : Answer) (failed : Bool)
          → eqb_ℤ a.ret minus_one ≡ failed
          → Owns a.ret log (
              ((if failed then Calls.throw (system_error a.errno) else Calls.pure (manage a.ret))
                  >>= λ fd. Calls.pure (record { sock_descriptor = fd }))
                (c ∷ log))
      by_test a true e = rw e (omega arith)
      by_test a false e = rw e (refl, refl, refl)

  module _ (o : ByteOrder) where
    -- The constructor that is called, and the domain and type of the socket that it opens.
    unfoldable pub construct : Constructor → Action Socket
    construct (tcp_of_domain d) = tcp_domain kernel d
    construct (tcp_bound a p) = tcp_bind kernel o a p
    construct (tcp_bound_any_port a) = tcp_bind_any_port kernel o a
    construct (tcp_connected a p) = tcp_connect kernel o a p
    construct (udp_of_domain d) = udp_domain kernel d
    construct (udp_bound a p) = udp_bind kernel o a p
    construct (datagram_of_domain d) = datagram_domain kernel d
    construct (datagram_bound a p) = datagram_bind kernel o a p
    construct (datagram_bound_any_port a) = datagram_bind_any_port kernel o a
    construct (datagram_connected a p) = datagram_connect kernel o a p

    abbrev pub domain_of : Constructor → ℕ
    domain_of (tcp_of_domain d) = d
    domain_of (udp_of_domain d) = d
    domain_of (datagram_of_domain d) = d
    domain_of _ = af_inet

    abbrev pub type_of : Constructor → ℕ
    type_of (udp_of_domain _) = sock_dgram
    type_of (udp_bound _ _) = sock_dgram
    type_of _ = sock_stream

    datagram-Owns :
        (domain : ℕ) (log : List Call)
        → Owns (socket_fd domain sock_stream log) log (datagram_domain kernel domain log)
    unfolding datagram_domain tcp_domain
    datagram-Owns domain log =
        then-Owns (tcp_domain kernel domain) (set_nodelay kernel) _ log
          (set_nodelay-Closeless kernel) (opened-Owns domain sock_stream log)

    -- Whatever the kernel answers, a constructor of a socket class that returns owns the open
    -- descriptor that its call of socket gave, and has not closed it; one that throws has closed
    -- that descriptor once if it was opened, and never otherwise.
    pub construct-Owns :
        (c : Constructor) (log : List Call)
        → Owns (socket_fd (domain_of c) (type_of c) log) log (construct c log)
    unfolding construct tcp_domain tcp_bind tcp_bind_any_port tcp_connect udp_domain udp_bind
        datagram_bind datagram_bind_any_port datagram_connect
    construct-Owns (tcp_of_domain d) log = opened-Owns d sock_stream log
    construct-Owns (tcp_bound a p) log =
        then-Owns (tcp_domain kernel af_inet) (λ s. Sockets.bind kernel o s a p false false) _ log
          (λ s. bind-Closeless kernel o s a p false false) (opened-Owns af_inet sock_stream log)
    construct-Owns (tcp_bound_any_port a) log =
        then-Owns (tcp_domain kernel af_inet) (λ s. Sockets.bind_any_port kernel o s a false) _ log
          (λ s. bind_any_port-Closeless kernel o s a false) (opened-Owns af_inet sock_stream log)
    construct-Owns (tcp_connected a p) log =
        then-Owns (tcp_domain kernel af_inet) (λ s. Sockets.connect kernel o s a p) _ log
          (λ s. connect-Closeless kernel o s a p) (opened-Owns af_inet sock_stream log)
    construct-Owns (udp_of_domain d) log = opened-Owns d sock_dgram log
    construct-Owns (udp_bound a p) log =
        then-Owns (udp_domain kernel af_inet) (λ s. Sockets.bind kernel o s a p false false) _ log
          (λ s. bind-Closeless kernel o s a p false false) (opened-Owns af_inet sock_dgram log)
    construct-Owns (datagram_of_domain d) log = datagram-Owns d log
    construct-Owns (datagram_bound a p) log =
        then-Owns (datagram_domain kernel af_inet) (λ s. Sockets.bind kernel o s a p false false) _
          log (λ s. bind-Closeless kernel o s a p false false) (datagram-Owns af_inet log)
    construct-Owns (datagram_bound_any_port a) log =
        then-Owns (datagram_domain kernel af_inet) (λ s. Sockets.bind_any_port kernel o s a false) _
          log (λ s. bind_any_port-Closeless kernel o s a false) (datagram-Owns af_inet log)
    construct-Owns (datagram_connected a p) log =
        then-Owns (datagram_domain kernel af_inet) (λ s. Sockets.connect kernel o s a p) _ log
          (λ s. connect-Closeless kernel o s a p) (datagram-Owns af_inet log)

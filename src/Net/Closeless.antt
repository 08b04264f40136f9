-- ===== src/Net/Closeless.antt =====
-- The functions of src/net that the constructors of the socket classes call make no call of close.
use liblinuxpp.Prelude.{
  ℕ, ◌+◌, ◌≡◌, refl, ◌∙◌, Bool, true, false, List, [], ◌∷◌, inl, inr, if◌then◌else◌, Bool-cases,
}
use liblinuxpp.Prelude.Int.{ℤ, pos, eqb_ℤ}
use liblinuxpp.Calls
use liblinuxpp.Calls.{
  Sockaddr, Call, Answer, Kernel, Result, ok, err, Action, ◌>>=◌, minus_one, system_error, checked,
}
use liblinuxpp.Net.Address.{ByteOrder, make_sockaddr, make_sockaddr_any_port}
use liblinuxpp.Net.Wrappers
use liblinuxpp.Net.Wrappers.{sock_cloexec, set_if, bind_sockaddr, connect_sockaddr, set_option}
use liblinuxpp.Net.Sockets
use liblinuxpp.Net.Sockets.{
  Socket, sock_stream, sock_dgram, unwinding, descriptor, destroy, tcp_domain, udp_domain, tcp_bind,
  tcp_bind_any_port, tcp_connect, udp_bind,
}
use liblinuxpp.Net.Datagram.{set_nodelay}

-- How often a descriptor has been closed.
abbrev pub closes : ℤ → List Call → ℕ
closes fd [] = 0
closes fd (Calls.close f ∷ log) = (if eqb_ℤ f fd then 1 else 0) + closes fd log
closes fd (_ ∷ log) = closes fd log

abbrev pub Closeless {ℓ} : {A : Type ℓ} → Action A → Type 0
Closeless body = (fd : ℤ) (log : List Call) → closes fd (body log).1 ≡ closes fd log

pub >>=-Closeless {ℓ κ} :
    {A : Type ℓ} {B : Type κ} (m : Action A) (f : A → Action B)
    → Closeless m
    → ((a : A) → Closeless (f a))
    → Closeless (m >>= f)
>>=-Closeless {A = A} {B = B} m f quiet quiet_f fd log = by_result (m log) (quiet fd log)
  where
    by_result :
        (r : Result A × List Call)
        → closes fd r.1 ≡ closes fd log
        → closes fd
            (elim r.0 as (λ _. Result B × List Call) [ ok a ↦ f a r.1 | err e ↦ (err e, r.1) ]).1
          ≡ closes fd log
    by_result (ok a, after) e = quiet_f a fd after ∙ e
    by_result (err x, after) e = e

module _ (kernel : Kernel) where
  pub checked-Closeless :
      (c : Call)
      → ((fd : ℤ) (log : List Call) → closes fd (c ∷ log) ≡ closes fd log)
      → Closeless (checked kernel c)
  checked-Closeless c other fd log = elim (Bool-cases (eqb_ℤ (kernel log c).ret minus_one)) [
    | inl failed ↦ rw failed (other fd log)
    | inr passed ↦ rw passed (other fd log)
  ]

  pub then_pure-Closeless :
      {B : Type 0} (c : Call) (f : Answer → B)
      → ((fd : ℤ) (log : List Call) → closes fd (c ∷ log) ≡ closes fd log)
      → Closeless (checked kernel c >>= λ a. Calls.pure (f a))
  then_pure-Closeless {B = B} c f other =
      >>=-Closeless {A = Answer} {B = B} (checked kernel c) (λ a. Calls.pure (f a))
        (checked-Closeless c other) (λ a fd log. refl)

  pub set_option-Closeless :
      (option : Wrappers.SocketOption) (sd : ℤ) (v : Calls.Value)
      → Closeless (set_option kernel option sd v)
  unfolding set_option
  set_option-Closeless option sd v =
      then_pure-Closeless (Calls.setsockopt sd option.level option.name v) (λ a. a.ret)
        (λ fd log. refl)

  pub set_to_one-Closeless :
      (option : Wrappers.SocketOption) (sd : ℤ)
      → Closeless
          (set_option kernel option sd (Calls.int_value (pos 1)) >>= λ _. Calls.pure (tt {0}))
  set_to_one-Closeless option sd =
      >>=-Closeless {A = ℤ} {B = Unit {0}} (set_option kernel option sd (Calls.int_value (pos 1)))
        (λ _. Calls.pure tt) (set_option-Closeless option sd (Calls.int_value (pos 1)))
        (λ a fd log. refl)

  pub set_if-Closeless :
      (wanted : Bool) (option : Wrappers.SocketOption) (sd : ℤ)
      → Closeless (set_if kernel wanted option sd)
  unfolding set_if
  set_if-Closeless true option sd fd log = set_to_one-Closeless option sd fd log
  set_if-Closeless false option sd fd log = refl

  pub bind_sockaddr-Closeless :
      (sd : ℤ) (addr : Sockaddr) (reuse_addr reuse_port : Bool)
      → Closeless (bind_sockaddr kernel sd addr reuse_addr reuse_port)
  unfolding bind_sockaddr
  bind_sockaddr-Closeless sd addr reuse_addr reuse_port =
      let bound : Action (Unit {0}) = checked kernel (Calls.bind sd addr) >>= λ _. Calls.pure tt in
      let reused : Action (Unit {0}) =
        set_if kernel reuse_port Wrappers.so_reuse_port sd >>= λ _. bound in
      >>=-Closeless {A = Unit {0}} {B = Unit {0}}
        (set_if kernel reuse_addr Wrappers.so_reuse_addr sd) (λ _. reused)
        (set_if-Closeless reuse_addr Wrappers.so_reuse_addr sd)
        (λ _.
          >>=-Closeless {A = Unit {0}} {B = Unit {0}}
            (set_if kernel reuse_port Wrappers.so_reuse_port sd) (λ _. bound)
            (set_if-Closeless reuse_port Wrappers.so_reuse_port sd)
            (λ _. then_pure-Closeless (Calls.bind sd addr) (λ _. tt) (λ fd log. refl)))

  pub connect_sockaddr-Closeless :
      (sd : ℤ) (addr : Sockaddr) → Closeless (connect_sockaddr kernel sd addr)
  unfolding connect_sockaddr
  connect_sockaddr-Closeless sd addr =
      then_pure-Closeless (Calls.connect sd addr) (λ _. tt) (λ fd log. refl)

  pub set_nodelay-Closeless : (s : Socket) → Closeless (set_nodelay kernel s)
  unfolding set_nodelay
  set_nodelay-Closeless s = set_to_one-Closeless Wrappers.so_tcp_nodelay (descriptor s)

  module _ (o : ByteOrder) where
    -- What follows the opening of the socket: binding or connecting it, without the calls of close.
    pub bind-Closeless :
        (s : Socket) (addr port : ℕ) (reuse_addr reuse_port : Bool)
        → Closeless (Sockets.bind kernel o s addr port reuse_addr reuse_port)
    unfolding Sockets.bind Wrappers.bind
    bind-Closeless s addr port reuse_addr reuse_port =
        bind_sockaddr-Closeless (descriptor s) (make_sockaddr o addr port) reuse_addr reuse_port

    pub bind_any_port-Closeless :
        (s : Socket) (addr : ℕ) (reuse_addr : Bool)
        → Closeless (Sockets.bind_any_port kernel o s addr reuse_addr)
    unfolding Sockets.bind_any_port Wrappers.bind_any_port
    bind_any_port-Closeless s addr reuse_addr =
        bind_sockaddr-Closeless (descriptor s) (make_sockaddr_any_port o addr) reuse_addr false

    pub connect-Closeless :
        (s : Socket) (addr port : ℕ) → Closeless (Sockets.connect kernel o s addr port)
    unfolding Sockets.connect Wrappers.connect
    connect-Closeless s addr port =
        connect_sockaddr-Closeless (descriptor s) (make_sockaddr o addr port)

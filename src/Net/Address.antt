-- ===== src/Net/Address.antt =====
-- Addresses (src/net/sockaddr.cpp). htons, ntohs, htonl and ntohl are parameters.
use liblinuxpp.Prelude.{ℕ}
use liblinuxpp.Calls.{Sockaddr}

pub record ByteOrder : Type 0 where
  pub htons : ℕ → ℕ
  pub ntohs : ℕ → ℕ
  pub htonl : ℕ → ℕ
  pub ntohl : ℕ → ℕ

abbrev pub af_inet : ℕ
af_inet = 2

module _ (o : ByteOrder) where
  -- make_sockaddr with an address and a port, and with an address alone.
  unfoldable pub make_sockaddr : ℕ → ℕ → Sockaddr
  make_sockaddr address port = record {
    sin_family = af_inet;
    sin_port = o.htons port;
    sin_addr = o.htonl address;
  }

  unfoldable pub make_sockaddr_any_port : ℕ → Sockaddr
  make_sockaddr_any_port address = record {
    sin_family = af_inet;
    sin_port = 0;
    sin_addr = o.htonl address;
  }

  unfoldable pub parse_sockaddr : Sockaddr → ℕ × ℕ
  parse_sockaddr sockaddr = (o.ntohl sockaddr.sin_addr, o.ntohs sockaddr.sin_port)

-- ===== src/Net.antt =====
-- net.c: the address behind a descriptor, and the limit on connections from one address. An
-- address is the 16 bytes of `sin6_addr`. The text of an address is only logged, and is left out.
mod Tests
pub mod Iface
pub mod Listen
pub mod Parent
pub mod Netlink
pub mod Limit
pub mod Kept
use nsjail.Common.{
  ℕ, suc, ◌%◌, ◌^◌, Bool, true, false, not, Option, none, some, List, [], ◌∷◌, get_or, leb, ◌==◌,
  if◌then◌else◌,
}
use nsjail.Common.Int.{ℤ, pos}
use nsjail.Os.{
  getsockopt_type, getpeername, getsockname, accept, set_cork, indeterminate, Reply, fail, done,
  Action, pure, sys, failed, out_of, ◌>>=◌, ◌>>◌,
}
use nsjail.Conf.{NsjConf, PidElem}

unfoldable pub net_is_socket : ℤ → Action Bool
net_is_socket fd = do r ← sys (getsockopt_type fd); pure (not (failed r))

abbrev pub address_of : Reply → Option (List ℕ)
address_of (fail e) = none
address_of (done n out) = some out

-- `netConnToText`: what it copies to `addr_or_null`, if it gets that far.
unfoldable pub net_conn_to_text : ℤ → Bool → Action (Option (List ℕ))
unfolding net_is_socket
net_conn_to_text fd remote = do
  socket ← net_is_socket fd
  if socket
      then (sys (if remote then getpeername fd else getsockname fd) >>= λ r. pure (address_of r))
      else pure none

-- A variable that `netConnToText` has not written keeps what the memory held.
abbrev pub or_indeterminate : Option (List ℕ) → Action (List ℕ)
or_indeterminate none = do r ← sys indeterminate; pure (out_of r)
or_indeterminate (some addr) = pure addr

-- `memcmp` over `sizeof(*s6_addr)` bytes, which is one byte.
unfoldable pub same_addr : List ℕ → List ℕ → Bool
same_addr a b = get_or a 0 0 == get_or b 0 0

unfoldable pub count_conns : List ℕ → List PidElem → ℕ
count_conns addr [] = 0
count_conns addr (p ∷ pids) =
    let rest = count_conns addr pids in if same_addr addr p.remote_addr then suc rest else rest

-- `cnt` is an unsigned 32-bit number.
abbrev pub under_limit : NsjConf → List ℕ → Bool
under_limit conf addr = not (leb conf.max_conns_per_ip (count_conns addr conf.pids % 2 ^ 32))

unfoldable pub net_limit_conns : NsjConf → ℤ → Action Bool
unfolding net_conn_to_text
net_limit_conns conf connsock = if conf.max_conns_per_ip == 0 then pure true else (do
  found ← net_conn_to_text connsock true
  addr ← or_indeterminate found
  pure (under_limit conf addr))

-- The addresses are only logged. TCP_CORK is set as far as that goes.
unfoldable pub net_accept_conn : ℤ → Action (Option ℕ)
net_accept_conn listenfd = do
  r ← sys (accept listenfd)
  elim r [
    | fail e ↦ pure none
    | done fd out ↦ do
      net_conn_to_text (pos fd) true
      net_conn_to_text (pos fd) false
      sys (set_cork (pos fd))
      pure (some fd)
  ]

-- ===== src/Net/Listen.antt =====
-- net.c: the socket that nsjail listens on.
pub mod Kept
use nsjail.Common.{ℕ, Bool, false, not, ◌&&◌, Option, none, some, List, ◌==◌, if◌then◌else◌}
use nsjail.Common.Int.{ℤ, pos, leb_ℤ}
use nsjail.Os.{
  CString, Syscall, inet_pton, socket, set_reuseaddr, bind, listen, close, Reply, fail, done,
  Action, pure, exit, sys, failed, result_of, out_of, ◌>>=◌, ◌>>◌,
}
use nsjail.Net.{net_conn_to_text}

abbrev pub port_in_bounds : ℤ → Bool
port_in_bounds port = leb_ℤ (pos 1) port && leb_ℤ port (pos 65535)

abbrev pub port_number : ℤ → ℕ
port_number (pos n) = n
port_number n = 0

abbrev give_up : ℕ → Action (Option ℕ)
give_up sock = sys (close (pos sock)) >> pure none

abbrev or_give_up : ℕ → Syscall → Action (Option ℕ) → Action (Option ℕ)
or_give_up sock call rest = do r ← sys call; if failed r then give_up sock else rest

-- AF_INET6 is 10, SOMAXCONN is 4096. A failure of SO_REUSEADDR leaves the socket open.
bound : List ℕ → ℕ → ℕ → Action (Option ℕ)
bound addr port sock = do
  r ← sys (set_reuseaddr (pos sock))
  if failed r
      then pure none
      else or_give_up sock (bind (pos sock) addr port) (
          or_give_up sock (listen (pos sock) 4096)
            (net_conn_to_text (pos sock) false >> pure (some sock)))

with_address : ℕ → Reply → Action (Option ℕ)
unfolding bound
with_address port r =
    if not (failed r) && result_of r == 1
    then (do
      s ← sys (socket 10)
      elim s [ fail e ↦ pure none | done sock out ↦ bound (out_of r) port sock ])
    else pure none

unfoldable pub net_get_recv_socket : CString → ℤ → Action (Option ℕ)
unfolding with_address
net_get_recv_socket bindhost port =
    if not (port_in_bounds port)
    then exit 1
    else (sys (inet_pton 10 bindhost) >>= with_address (port_number port))

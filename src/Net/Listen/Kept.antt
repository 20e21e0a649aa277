-- ===== src/Net/Listen/Kept.antt =====
-- net.c: making the socket that nsjail listens on executes no program.
use nsjail.Common.{ℕ, Option, none, List}
use nsjail.Common.Int.{ℤ}
use nsjail.Os.{CString, Reply, fail, done, pure, out_of}
use nsjail.Os.Quiet.{Quiet, Quiet-pure, quiet_rules}
use nsjail.Net.Kept.{net_conn_to_text-Quiet}
use nsjail.Net.Listen.{bound, with_address, net_get_recv_socket}

bound-Quiet : (addr : List ℕ) (port sock : ℕ) → Quiet (bound addr port sock)
unfolding bound
bound-Quiet addr port sock = search (quiet_rules, net_conn_to_text-Quiet) depth 16

with_address-Quiet : (port : ℕ) (r : Reply) → Quiet (with_address port r)
unfolding with_address
with_address-Quiet port r = search (quiet_rules, opened)
  where
    opened :
        (s : Reply)
        → Quiet {A = Option ℕ}
            (elim s [ fail e ↦ pure none | done sock out ↦ bound (out_of r) port sock ])
    opened (fail e) = Quiet-pure none
    opened (done sock out) = bound-Quiet (out_of r) port sock

pub net_get_recv_socket-Quiet :
    (bindhost : CString) (port : ℤ) → Quiet (net_get_recv_socket bindhost port)
unfolding net_get_recv_socket
net_get_recv_socket-Quiet bindhost port = search (quiet_rules, with_address-Quiet)
